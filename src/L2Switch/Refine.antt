-- ===== src/L2Switch/Refine.antt =====
-- The table as a function from MAC addresses: every run of the methods does on the function what it
-- does on the table.
use zgalaxy_rs.Prelude.{
  ℕ, ◌≡◌, Option, none, some, List, [], ◌∷◌, list_eq, nat_eq, if◌then◌else◌, ◌==◌, refl, ◌∙◌, ap,
  ◌+◌, ◌||◌, leb, nat_beq, arith,
}
use mathlib.Core.Path.{fun_ext}
use zgalaxy_rs.Prelude.Dict
use zgalaxy_rs.Net.{SocketAddr, socket_eq, socket_beq_iff}
use zgalaxy_rs.L2Switch.{
  Mac, SwitchEntry, Table, new, learn, remove_endpoint, evict_stale, stays, is_fresh,
}

pub data Op : Type 0 where
  learn_at : Mac → SocketAddr → ℕ → Op
  remove_at : SocketAddr → Op
  evict_at : ℕ → ℕ → Op

unfoldable pub step : Op → Table → Table
step (learn_at mac ep now) t = learn t mac ep now
step (remove_at ep) t = (remove_endpoint t ep).0
step (evict_at now max_age) t = (evict_stale t now max_age).0

unfoldable pub run : List Op → Table → Table
unfolding step
run [] t = t
run (op ∷ ops) t = run ops (step op t)

abbrev View : Type 0
View = Mac → Option SwitchEntry

-- An entry whose endpoint is gone.
abbrev pub unless_at : SocketAddr → Option SwitchEntry → Option SwitchEntry
unless_at ep none = none
unless_at ep (some e) = if e.endpoint == ep then none else some e

-- An entry that is at least `max_age` old is gone; one that was seen after `now` has age 0.
abbrev pub unless_old : ℕ → ℕ → Option SwitchEntry → Option SwitchEntry
unless_old now max_age none = none
unless_old now max_age (some e) =
    if leb (e.last_seen + max_age) now || nat_beq max_age 0 then none else some e

-- The same operations on a function.
abbrev pub effect : Op → View → View
effect (learn_at mac ep now) f other =
    if mac == other then some (record { endpoint = ep; last_seen = now }) else f other
effect (remove_at ep) f other = unless_at ep (f other)
effect (evict_at now max_age) f other = unless_old now max_age (f other)

unfoldable pub replay : List Op → View → View
replay [] f = f
replay (op ∷ ops) f = replay ops (effect op f)

step-Unique : (op : Op) (t : Table) → Dict.Unique t → Dict.Unique (step op t)
unfolding step learn remove_endpoint evict_stale
step-Unique (learn_at mac ep now) t u = Dict.insert-Unique t mac _ u
step-Unique (remove_at ep) t u = Dict.retain-Unique (stays ep) t u
step-Unique (evict_at now max_age) t u = Dict.retain-Unique (is_fresh now max_age) t u

unless_at-stays :
    (ep : SocketAddr) (mac : Mac) (o : Option SwitchEntry)
    → elim o [ none ↦ none | some e ↦ if stays ep mac e then some e else none ] ≡ unless_at ep o
unless_at-stays ep mac none = refl
unless_at-stays ep mac (some e) = ground (arith, socket_beq_iff e.endpoint ep)

unless_old-is_fresh :
    (now max_age : ℕ) (mac : Mac) (o : Option SwitchEntry)
    → elim o [ none ↦ none | some e ↦ if is_fresh now max_age mac e then some e else none ]
      ≡ unless_old now max_age o
unless_old-is_fresh now max_age mac none = refl
unless_old-is_fresh now max_age mac (some e) = ground arith

get-step : (op : Op) (t : Table) → Dict.Unique t → Dict.get (step op t) ≡ effect op (Dict.get t)
unfolding step learn remove_endpoint evict_stale
get-step (learn_at mac ep now) t u = fun_ext λ other. Dict.get-insert t mac _ other
get-step (remove_at ep) t u =
    fun_ext
      λ other. Dict.get-retain (stays ep) t other u ∙ unless_at-stays ep other (Dict.get t other)
get-step (evict_at now max_age) t u = fun_ext λ other.
    Dict.get-retain (is_fresh now max_age) t other u
    ∙ unless_old-is_fresh now max_age other (Dict.get t other)

run-replay :
    (ops : List Op) (t : Table)
    → Dict.Unique t
    → Dict.Unique (run ops t) × (Dict.get (run ops t) ≡ replay ops (Dict.get t))
unfolding run replay
run-replay [] t u = (u, refl)
run-replay (op ∷ ops) t u =
    let rest = run-replay ops (step op t) (step-Unique op t u) in
    (rest.0, rest.1 ∙ ap (replay ops) (get-step op t u))

-- After any sequence of learning, disconnection and eviction from the empty switch, every MAC has at
-- most one entry, and it is the one that the same sequence gives on functions from MACs: learning
-- replaces the entry of the MAC alone, a disconnection takes away exactly the entries with the
-- endpoint, and an eviction exactly those of age `max_age` or more, where what was seen after `now`
-- has age 0.
pub run_refines :
    (ops : List Op) → Dict.Unique (run ops new) × (Dict.get (run ops new) ≡ replay ops (λ _. none))
unfolding Dict.get
run_refines ops = run-replay ops new tt
