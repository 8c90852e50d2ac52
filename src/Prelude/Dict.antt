-- ===== src/Prelude/Dict.antt =====
-- `HashMap`: an association list. Insertion replaces a binding in place; the order of the entries is
-- one of the orders in which the map may be iterated.
use zgalaxy_rs.Prelude.Eq.{HasEq}
use zgalaxy_rs.Prelude.Tests.{if◌then◌else◌}
use zgalaxy_rs.Prelude.Lists.{length}
use Prim.Native.Nat.{◌+◌}
use mathlib.Core.Path.{◌≡◌, refl}
use mathlib.Core.Bool.{Bool, true, false}
use mathlib.Core.List.{List, [], ◌∷◌}
use mathlib.Core.Option.{Option, none, some}
use native.Mathlib.Omega.{arith}

abbrev pub Dict {ℓ κ} : Type ℓ → Type κ → Type (ℓ ⊔ κ)
Dict K V = List (K × V)

module _ {ℓ κ} {K : Type ℓ} {V : Type κ} ⦃e : HasEq K⦄ where
  unfoldable pub get : Dict K V → K → Option V
  get [] k = none
  get ((j, v) ∷ m) k = if e.test j k then some v else get m k

  unfoldable pub contains_key : Dict K V → K → Bool
  contains_key m k = elim (get m k) [ none ↦ false | some _ ↦ true ]

  unfoldable pub insert : Dict K V → K → V → Dict K V
  insert [] k v = (k, v) ∷ []
  insert ((j, w) ∷ m) k v = if e.test j k then (k, v) ∷ m else (j, w) ∷ insert m k v

  unfoldable pub remove : Dict K V → K → Dict K V
  remove [] k = []
  remove ((j, w) ∷ m) k = let rest = remove m k in if e.test j k then rest else (j, w) ∷ rest

  unfoldable pub retain : (K → V → Bool) → Dict K V → Dict K V
  retain p [] = []
  retain p ((j, w) ∷ m) = let rest = retain p m in if p j w then (j, w) ∷ rest else rest

  -- Every key is bound once, as in a `HashMap`.
  abbrev pub Unique : Dict K V → Type κ
  Unique [] = Unit {κ}
  Unique ((j, w) ∷ m) = (get m j ≡ none) × Unique m

  pub get-nil : (k : K) → get [] k ≡ none
  unfolding get
  get-nil k = refl

  pub get-insert :
      (m : Dict K V) (k : K) (v : V) (j : K)
      → get (insert m k v) j ≡ (if e.test k j then some v else get m j)
  unfolding get insert
  get-insert [] k v j = refl
  get-insert ((i, w) ∷ m) k v j =
      ground (arith, e.test_iff i k, e.test_iff i j, e.test_iff k j, get-insert m k v j)

  pub get-remove :
      (m : Dict K V) (k j : K) → get (remove m k) j ≡ (if e.test k j then none else get m j)
  unfolding get remove
  get-remove [] k j = ground arith
  get-remove ((i, w) ∷ m) k j =
      ground (arith, e.test_iff i k, e.test_iff i j, e.test_iff k j, get-remove m k j)

  pub remove-absent : (m : Dict K V) (k : K) → get m k ≡ none → remove m k ≡ m
  unfolding get remove
  remove-absent [] k h = refl
  remove-absent ((i, w) ∷ m) k h = ground (arith, remove-absent m k)

  pub get-retain-none :
      (p : K → V → Bool) (m : Dict K V) (k : K) → get m k ≡ none → get (retain p m) k ≡ none
  unfolding get retain
  get-retain-none p [] k h = refl
  get-retain-none p ((i, w) ∷ m) k h = ground (arith, get-retain-none p m k)

  pub get-retain :
      (p : K → V → Bool) (m : Dict K V) (k : K)
      → Unique m
      → get (retain p m) k
        ≡ elim (get m k) [ none ↦ none | some v ↦ if p k v then some v else none ]
  unfolding get retain
  get-retain p [] k u = refl
  get-retain p ((i, w) ∷ m) k u =
      ground (arith, e.test_iff i k, get-retain p m k u.1, get-retain-none p m i u.0)

  pub insert-Unique : (m : Dict K V) (k : K) (v : V) → Unique m → Unique (insert m k v)
  unfolding insert get
  insert-Unique [] k v u = (refl, tt)
  insert-Unique ((i, w) ∷ m) k v u =
      ground (arith, e.test_iff i k, e.test_iff k i, get-insert m k v i, insert-Unique m k v u.1)

  pub remove-Unique : (m : Dict K V) (k : K) → Unique m → Unique (remove m k)
  unfolding remove
  remove-Unique [] k u = u
  remove-Unique ((i, w) ∷ m) k u =
      ground (arith, get-remove m k i, e.test_iff i k, e.test_iff k i, remove-Unique m k u.1)

  pub retain-Unique : (p : K → V → Bool) (m : Dict K V) → Unique m → Unique (retain p m)
  unfolding retain
  retain-Unique p [] u = u
  retain-Unique p ((i, w) ∷ m) u = ground (arith, get-retain-none p m i u.0, retain-Unique p m u.1)

  pub length-insert :
      (m : Dict K V) (k : K) (v : V)
      → length (insert m k v) ≡ elim (get m k) [ none ↦ length m + 1 | some _ ↦ length m ]
  unfolding insert get
  length-insert [] k v = omega arith
  length-insert ((i, w) ∷ m) k v = ground (arith, length-insert m k v)

pub ruleset dict_laws = (get-insert, get-remove)
