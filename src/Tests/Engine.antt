-- ===== src/Tests/Engine.antt =====
-- The engine loop at a concrete controller with one peer.
use zgalaxy_rs.Prelude.{◌≡◌, refl, true, false, none, some, [], ◌∷◌, list_eq, nat_eq, arith}
use zgalaxy_rs.Prelude.Dict
use zgalaxy_rs.Net.{socket_eq}
use zgalaxy_rs.Quic.{remember_announce, announced_address, reader_ended}
use zgalaxy_rs.Controller.Members.{
  get_network, get_member, put_member, new_member, join_new, register_join_request,
  get_effective_member,
}
use zgalaxy_rs.Controller.Types.{MemberRecord, Controller}
use zgalaxy_rs.Daemon.{Env, Node, ConfigResponse, datagram}
use zgalaxy_rs.Daemon.Serve.{serve, answer, response_for, token_refused, handle, on_disconnected}
use zgalaxy_rs.Daemon.Served.{IsServed, serve-IsServed}
use zgalaxy_rs.Daemon.Presence.{Same, handle-unproven}
use zgalaxy_rs.Daemon.Lost.{activate_each, on_disconnected-unchanged}
use zgalaxy_rs.Tests.Crates.{Value}
use zgalaxy_rs.Tests.Joining.{ctrl, net, nwid}
use zgalaxy_rs.Tests.Nodes.{crates, identity, remote, address, public_text}
use zgalaxy_rs.Tests.Sessions.{asked, proof, events, reaches, running}

abbrev env : Env
env = record {
  dial = record {
    waiting = λ t. t;
    dialing = λ t. t;
    looked = λ t. t;
    replacing = λ t. t;
    announcing = λ t. t;
    rereading = λ t. t;
    handshake = some 3;
  };
  sent = λ peer bytes. true;
  nonce = 9;
  instant = 100;
  unix_secs = 1000;
  unix_millis = 1000000;
  written = true;
}

abbrev node : Node crates
unfolding asked proof remember_announce
node = record {
  quic = (remember_announce asked remote proof.address).0;
  controller = ctrl;
  peers = [];
  switch = [];
  to_tun = [];
  identity = identity;
  controller_key = 1 ∷ [];
  is_controller_node = true;
}

abbrev member : MemberRecord Value
unfolding new_member
member = new_member nwid address false [] none 1000000

abbrev joined : Controller Value
unfolding put_member member
joined = put_member ctrl nwid address member

abbrev response : ConfigResponse
unfolding response_for joined member
response = response_for crates joined net (some member) nwid address 1000

serves : (serve crates env node remote nwid none).1 ≡ some response
unfolding serve answer response_for response token_refused node asked announced_address Dict.get
    Dict.insert Dict.contains_key register_join_request join_new new_member put_member get_network
    get_member get_effective_member member joined remember_announce proof
serves = refl

serve-IsServed_example :
    IsServed crates address public_text events env node remote nwid none
      (serve crates env node remote nwid none).0
      response
unfolding node
serve-IsServed_example =
    serve-IsServed crates address public_text events env node remote nwid none response reaches
      serves

-- Before the proof, the node knows no peer.
abbrev stranger : Node crates
unfolding node asked
stranger = record node { quic = asked }

handle-unproven_example :
    Same crates (handle crates env (datagram remote (1 ∷ 2 ∷ [])) stranger) stranger
unfolding stranger node asked Dict.get
handle-unproven_example = handle-unproven crates env stranger (datagram remote (1 ∷ 2 ∷ [])) refl

abbrev lost : Node crates
unfolding node reader_ended activate_each
lost = record node { quic = activate_each (reader_ended running remote 4).0 ((remote, 5) ∷ []) }

on_disconnected-unchanged_example : on_disconnected crates lost remote 4 ≡ lost
unfolding lost
on_disconnected-unchanged_example =
    on_disconnected-unchanged crates lost running remote 4 ((remote, 5) ∷ []) refl
      (λ e. ground arith, tt)
