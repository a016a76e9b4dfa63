-- ===== src/Base/Sorting.antt =====
-- Python's `sorted`: stable, by an order that is a test. How many elements lie within a bound does
-- not depend on their order, and in sorted order they come first.
use Prim.Native.Nat.{ℕ, zero, suc, ◌≤◌, ◌<◌}
use mathlib.Core.Path.{◌≡◌, refl, subst}
use mathlib.Core.Logic.{◌↔◌, ◌⊎◌, inl, inr}
use mathlib.Core.Bool.{Bool, true, false}
use mathlib.Core.Option.{some}
use mathlib.Core.List.{List, [], ◌∷◌}
use native.Mathlib.Omega.{arith}
use revenue_recovery_voice_a.Base.Tests.{if◌then◌else◌, Bool-cases}
use revenue_recovery_voice_a.Base.Lists.{length, get_elem?, All}

module _ {ℓ} {A : Type ℓ} where
  -- Before the first element that is not below it.
  unfoldable pub insert_by : (A → A → Bool) → A → List A → List A
  insert_by le x [] = x ∷ []
  insert_by le x (y ∷ ys) = let rest = insert_by le x ys in if le x y then x ∷ y ∷ ys else y ∷ rest

  -- `sorted(xs)`
  unfoldable pub sort_by : (A → A → Bool) → List A → List A
  unfolding insert_by
  sort_by le [] = []
  sort_by le (x ∷ xs) = insert_by le x (sort_by le xs)

  some_inj : {x y : A} → some x ≡ some y → x ≡ y
  some_inj h = cc

  -- How many elements satisfy a test.
  abbrev pub count_if : (A → Bool) → List A → ℕ
  count_if p [] = 0
  count_if p (x ∷ xs) = let rest = count_if p xs in if p x then suc rest else rest

  pub count_if-le_length : (p : A → Bool) (xs : List A) → count_if p xs ≤ length xs
  count_if-le_length p [] = omega arith
  count_if-le_length p (x ∷ xs) = ground (arith, count_if-le_length p xs)

pub get_elem?-within {ℓ} :
    {A : Type ℓ} (xs : List A) (i : ℕ) → i < length xs → (v : A) × (get_elem? xs i ≡ some v)
get_elem?-within [] i h = absurd (omega arith)
get_elem?-within (x ∷ xs) zero h = (x, refl)
get_elem?-within (x ∷ xs) (suc i) h = get_elem?-within xs i (omega arith)

module _ {ℓ} {A : Type ℓ} (le : A → A → Bool) where
  pub count_if-insert_by :
      (p : A → Bool) (x : A) (xs : List A) → count_if p (insert_by le x xs) ≡ count_if p (x ∷ xs)
  unfolding insert_by
  count_if-insert_by p x [] = refl
  count_if-insert_by p x (y ∷ ys) = ground (arith, count_if-insert_by p x ys)

  pub count_if-sort_by : (p : A → Bool) (xs : List A) → count_if p (sort_by le xs) ≡ count_if p xs
  unfolding sort_by
  count_if-sort_by p [] = refl
  count_if-sort_by p (x ∷ xs) =
      ground (arith, count_if-insert_by p x (sort_by le xs), count_if-sort_by p xs)

  pub length-insert_by : (x : A) (xs : List A) → length (insert_by le x xs) ≡ suc (length xs)
  unfolding insert_by
  length-insert_by x [] = refl
  length-insert_by x (y ∷ ys) = ground (arith, length-insert_by x ys)

  pub length-sort_by : (xs : List A) → length (sort_by le xs) ≡ length xs
  unfolding sort_by
  length-sort_by [] = refl
  length-sort_by (x ∷ xs) = omega (arith, length-insert_by x (sort_by le xs), length-sort_by xs)

  -- Every element is below those that follow it.
  abbrev pub IsSorted : List A → Type 0
  IsSorted [] = Unit
  IsSorted (x ∷ xs) = All (λ y. le x y ≡ true) xs × IsSorted xs

  module _ (trans : (a b c : A) → le a b ≡ true → le b c ≡ true → le a c ≡ true)
      (total : (a b : A) → le a b ≡ false → le b a ≡ true) where
    above-insert_by :
        (a x : A) (xs : List A)
        → le a x ≡ true
        → All (λ y. le a y ≡ true) xs
        → All (λ y. le a y ≡ true) (insert_by le x xs)
    unfolding insert_by
    above-insert_by a x [] h k = (h, tt)
    above-insert_by a x (y ∷ ys) h k = ground (arith, above-insert_by a x ys)

    below-All :
        (a b : A) (xs : List A)
        → le a b ≡ true
        → All (λ y. le b y ≡ true) xs
        → All (λ y. le a y ≡ true) xs
    below-All a b [] h k = tt
    below-All a b (y ∷ ys) h k = (trans a b y h k.0, below-All a b ys h k.1)

    insert_by-IsSorted : (x : A) (xs : List A) → IsSorted xs → IsSorted (insert_by le x xs)
    unfolding insert_by
    insert_by-IsSorted x [] h = (tt, tt)
    insert_by-IsSorted x (y ∷ ys) h = elim (Bool-cases (le x y)) [
      | inl below ↦ rw below ((below, below-All x y ys below h.0), h)
      | inr above ↦
          rw above (above-insert_by y x ys (total x y above) h.0, insert_by-IsSorted x ys h.1)
    ]

    pub sort_by-IsSorted : (xs : List A) → IsSorted (sort_by le xs)
    unfolding sort_by
    sort_by-IsSorted [] = tt
    sort_by-IsSorted (x ∷ xs) = insert_by-IsSorted x (sort_by le xs) (sort_by-IsSorted xs)

    -- No element is within a bound that the least one is beyond.
    none_within :
        (w y : A) (ys : List A)
        → le y w ≡ false
        → All (λ z. le y z ≡ true) ys
        → count_if (λ z. le z w) ys ≡ 0
    none_within w y [] h k = refl
    none_within w y (z ∷ zs) h k = elim (Bool-cases (le z w)) [
      | inl within ↦ cc (h, trans y z w k.0 within)
      | inr beyond ↦ rw beyond (none_within w y zs h k.1)
    ]

    all_at :
        (P : A → Type 0) (xs : List A) (i : ℕ) (v : A) → get_elem? xs i ≡ some v → All P xs → P v
    all_at P [] i v at h = cc
    all_at P (x ∷ xs) zero v at h = subst P (some_inj at) h.0
    all_at P (x ∷ xs) (suc i) v at h = all_at P xs i v at h.1

    -- The element at a rank is within a bound exactly if that many elements are.
    pub ranked_within :
        (w : A) (xs : List A) (i : ℕ) (v : A)
        → IsSorted xs
        → get_elem? xs i ≡ some v
        → (le v w ≡ true) ↔ (suc i ≤ count_if (λ z. le z w) xs)
    ranked_within w [] i v h at = cc
    ranked_within w (x ∷ xs) zero v h at = elim (Bool-cases (le x w)) [
      | inl within ↦
          rw within (λ e. omega arith, λ e. subst (λ (y : A). le y w ≡ true) (some_inj at) within)
      | inr beyond ↦
          rw (beyond, none_within w x xs beyond h.0) (λ e. ground arith, λ e. absurd (omega arith))
    ]
    ranked_within w (x ∷ xs) (suc i) v h at = elim (Bool-cases (le x w)) [
      | inl within ↦ rw within (
        λ e. omega (arith, (ranked_within w xs i v h.1 at).0 e),
        λ e. (ranked_within w xs i v h.1 at).1 (omega arith),
      )
      | inr beyond ↦
          let least = trans x v w (all_at (λ y. le x y ≡ true) xs i v at h.0) in
          rw (beyond, none_within w x xs beyond h.0)
            (λ e. cc (beyond, least e), λ e. absurd (omega arith))
    ]

-- `v` is one of the elements.
abbrev pub IsAmong : {A : Type 0} → A → List A → Type 0
IsAmong v [] = ⊥
IsAmong v (x ∷ xs) = (v ≡ x) ⊎ IsAmong v xs

pub get_elem?-IsAmong :
    {A : Type 0} (xs : List A) (i : ℕ) (v : A) → get_elem? xs i ≡ some v → IsAmong v xs
get_elem?-IsAmong [] i v h = cc
get_elem?-IsAmong (x ∷ xs) zero v h = inl (ground arith)
get_elem?-IsAmong (x ∷ xs) (suc i) v h = inr (get_elem?-IsAmong xs i v h)

module _ {A : Type 0} (le : A → A → Bool) where
  IsAmong-insert_by : (v x : A) (xs : List A) → IsAmong v (insert_by le x xs) → IsAmong v (x ∷ xs)
  unfolding insert_by
  IsAmong-insert_by v x [] h = h
  IsAmong-insert_by v x (y ∷ ys) h = ground (arith, IsAmong-insert_by v x ys)

  pub IsAmong-sort_by : (v : A) (xs : List A) → IsAmong v (sort_by le xs) → IsAmong v xs
  unfolding sort_by
  IsAmong-sort_by v [] h = h
  IsAmong-sort_by v (x ∷ xs) h = elim (IsAmong-insert_by v x (sort_by le xs) h) [
    | inl here ↦ inl here
    | inr there ↦ inr (IsAmong-sort_by v xs there)
  ]
