-- ===== src/Controller/Assign/Modes.antt =====
-- Which texts are in the list after each stage, and how the custom range grows.
use zgalaxy_rs.Prelude.{
  ◌≡◌, refl, Bool, true, false, not, ◌&&◌, ◌||◌, Option, none, some, List, [], ◌∷◌, ◌++◌, any,
  retain, contains, nat_eq, list_eq, list_beq, list_beq_iff, if◌then◌else◌, arith,
}
use zgalaxy_rs.Prelude.Text.{Text}
use zgalaxy_rs.Prelude.Outcome.{Outcome, ok}
use zgalaxy_rs.Controller.Assign.{
  has_colon, has_prefix, fc, fd, push_some, stage_v4, stage_derived, stage_zt_v6, is_not_custom,
}

pub contains-append :
    (xs ys : List Text) (x : Text) → contains (xs ++ ys) x ≡ (contains xs x || contains ys x)
contains-append [] ys x = refl
contains-append (y ∷ xs) ys x = ground (arith, contains-append xs ys x)

pub contains-retain :
    (p : Text → Bool) (xs : List Text) (x : Text)
    → contains (retain p xs) x ≡ (contains xs x && p x)
contains-retain p [] x = refl
contains-retain p (y ∷ xs) x = ground (arith, list_beq_iff y x, contains-retain p xs x)

-- Whether an optional text is this one.
abbrev pub is_some_of : Option Text → Text → Bool
is_some_of none x = false
is_some_of (some y) x = list_beq y x

pub contains-push_some :
    (xs : List Text) (o : Option Text) (x : Text)
    → contains (push_some xs o) x ≡ (contains xs x || is_some_of o x)
contains-push_some xs none x = ground arith
contains-push_some xs (some y) x = ground (arith, contains-append xs (y ∷ []) x)

pub contains-stage_derived :
    (on : Bool) (derived : Option Text) (prefix : Text) (xs : List Text) (x : Text)
    → contains (stage_derived on derived prefix xs) x ≡ (
        if on
        then contains xs x || is_some_of derived x
        else contains xs x && (not (is_some_of derived x) && not (has_prefix prefix x)))
unfolding stage_derived
contains-stage_derived true none prefix xs x = ground arith
contains-stage_derived true (some y) prefix xs x =
    ground (arith, contains-append xs (y ∷ []) x, list_beq_iff y x)
contains-stage_derived false none prefix xs x =
    ground (arith, contains-retain (λ x. not (has_prefix prefix x)) xs x)
contains-stage_derived false (some y) prefix xs x = ground (
  arith,
  contains-retain (λ x. not (has_prefix prefix x)) (retain (λ x. not (list_beq x y)) xs) x,
  contains-retain (λ x. not (list_beq x y)) xs x,
  list_beq_iff x y,
  list_beq_iff y x,
)

pub contains-stage_v4 :
    (on : Bool) (free : Option Text) (xs : List Text) (x : Text)
    → contains (stage_v4 on free xs) x ≡ (
        if on
        then contains xs x || (not (any (λ ip. not (has_colon ip)) xs) && is_some_of free x)
        else contains xs x && has_colon x)
unfolding stage_v4
contains-stage_v4 on free xs x =
    ground (arith, contains-push_some xs free x, contains-retain has_colon xs x)

-- No text begins with both prefixes.
pub prefix-exclusive : (x : Text) → has_prefix fc x ≡ true → has_prefix fd x ≡ false
prefix-exclusive [] h = refl
prefix-exclusive (a ∷ []) h = ground arith
prefix-exclusive (a ∷ b ∷ x) h = ground arith

pub stage_zt_v6-off :
    (on : Bool) (free : Outcome (Unit {0}) (Option Text)) (xs : List Text)
    → on ≡ false
    → stage_zt_v6 on free xs ≡ ok (retain is_not_custom xs)
unfolding stage_zt_v6
stage_zt_v6-off on free xs h = rw h
