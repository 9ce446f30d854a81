-- ===== src/Common/Maps.antt =====
-- Go maps as association lists. A lookup of a missing key is `none`, an assignment to a present key
-- replaces its value in place, and the list order stands for the order of one iteration.
use Prim.Native.Nat.{ℕ, ◌≤◌}
use Prim.Native.String.{String}
use mathlib.Core.Path.{◌≡◌, refl, sym, ap, ◌∙◌}
use mathlib.Core.Logic.{◌↔◌, inl, inr}
use mathlib.Core.Bool.{Bool, true, false}
use mathlib.Core.List.{List, [], ◌∷◌}
use mathlib.Core.Option.{Option, none, some}
use native.Mathlib.Omega.{arith}
use text.Mathlib.Text.{◌==◌ as str_eq}
use text.Mathlib.TextEquality.{eq_iff}
use laredo.Common.Tests.{if◌then◌else◌, nat_beq, nat_beq_iff, Bool-cases}
use laredo.Common.Lists.{length}

-- Types whose values Go compares by `==`, and may so take as the keys of a map.
pub record Comparable {ℓ} (K : Type ℓ) : Type ℓ where
  pub same : K → K → Bool
  pub same_iff : (j k : K) → (same j k ≡ true) ↔ (j ≡ k)

instance abbrev pub comparable_string : Comparable String
comparable_string = record { same_iff = eq_iff; same = str_eq }

module _ {ℓ} {K : Type ℓ} ⦃e : Comparable K⦄ where
  infix 50 ◌==◌
  abbrev pub ◌==◌ : K → K → Bool
  ◌==◌ = e.same

  pub ==_refl : (k : K) → (k == k) ≡ true
  ==_refl k = (e.same_iff k k).1 refl

instance abbrev pub comparable_nat : Comparable ℕ
comparable_nat = record { same_iff = nat_beq_iff; same = nat_beq }

abbrev pub Assoc {ℓ} : Type 0 → Type ℓ → Type ℓ
Assoc K V = List (K × V)

module _ {ℓ} {K : Type 0} {V : Type ℓ} ⦃e : Comparable K⦄ where
  abbrev pub get : Assoc K V → K → Option V
  get [] k = none
  get ((j, v) ∷ m) k = if j == k then some v else get m k

  abbrev pub put : Assoc K V → K → V → Assoc K V
  put [] k v = (k, v) ∷ []
  put ((j, w) ∷ m) k v = if j == k then (k, v) ∷ m else (j, w) ∷ put m k v

  abbrev pub delete : Assoc K V → K → Assoc K V
  delete [] k = []
  delete ((j, w) ∷ m) k = if j == k then delete m k else (j, w) ∷ delete m k

  pub get-put :
      (m : Assoc K V) (k j : K) (v : V) → get (put m k v) j ≡ (if k == j then some v else get m j)
  get-put [] k j v = refl
  get-put ((i, w) ∷ m) k j v =
      ground (arith, e.same_iff k j, e.same_iff i k, e.same_iff i j, get-put m k j v)

  pub get-delete :
      (m : Assoc K V) (k j : K) → get (delete m k) j ≡ (if k == j then none else get m j)
  get-delete [] k j = ground arith
  get-delete ((i, w) ∷ m) k j =
      ground (arith, e.same_iff k j, e.same_iff i k, e.same_iff i j, get-delete m k j)

  pub length-delete : (m : Assoc K V) (k : K) → length (delete m k) ≤ length m
  length-delete [] k = omega arith
  length-delete ((i, w) ∷ m) k = ground (arith, length-delete m k)

module _ {V : Type 0} where
  -- No key stands twice.
  abbrev pub Distinct : Assoc String V → Type 0
  Distinct [] = Unit {0}
  Distinct ((k, v) ∷ m) = (get m k ≡ none) × Distinct m

  pub put-Distinct : (m : Assoc String V) (k : String) (v : V) → Distinct m → Distinct (put m k v)
  put-Distinct [] k v d = (refl, tt)
  put-Distinct ((j, w) ∷ m) k v (fresh, d) = elim (Bool-cases (j == k)) [
    | inl y ↦ rw y (ap (get m) (sym ((comparable_string.same_iff j k).0 y)) ∙ fresh, d)
    | inr n ↦ rw n (
      ground
          (arith, get-put m k j v, comparable_string.same_iff k j, comparable_string.same_iff j k),
      put-Distinct m k v d,
    )
  ]

  pub delete-Distinct : (m : Assoc String V) (k : String) → Distinct m → Distinct (delete m k)
  delete-Distinct [] k d = tt
  delete-Distinct ((j, w) ∷ m) k (fresh, d) = elim (Bool-cases (j == k)) [
    | inl y ↦ rw y (delete-Distinct m k d)
    | inr n ↦ rw n (ground (arith, get-delete m k j), delete-Distinct m k d)
  ]

  -- a key that stands in the rest is not the key in front
  pub not_front :
      (m : Assoc String V) (k j : String) (v : V)
      → get m k ≡ none
      → get m j ≡ some v
      → (k == j) ≡ false
  not_front m k j v fresh h = elim (Bool-cases (k == j)) [
    | inl y ↦
        let same : get m k ≡ get m j = ap (get m) ((comparable_string.same_iff k j).0 y) in
        absurd (ground arith)
    | inr n ↦ n
  ]
