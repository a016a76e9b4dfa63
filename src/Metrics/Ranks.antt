-- ===== src/Metrics/Ranks.antt =====
-- `percentile` of `apps/api/observability/metrics.py` against the definition of Postgres's
-- `percentile_disc`, which has no ranks, no rounding and no sorting.
use revenue_recovery_voice_a.Base.{
  leb, ℕ, zero, suc, ◌^◌, ◌≤◌, ◌<◌, ◌≡◌, refl, ap, ◌∙◌, ◌↔◌, inl, inr, true, false, List, [], ◌∷◌,
  some, length, get_elem?, ℤ, pos, negsuc, ◌≤ℤ◌, ◌+ℤ◌, ◌-ℤ◌, +ℤ_parts, FloatOps, ok, Bool-cases,
  leb_ℤ, pos_part, neg_part, sort_by, count_if, IsAmong, get_elem?-IsAmong, IsAmong-sort_by,
  get_elem?-within, count_if-sort_by, length-sort_by, count_if-le_length, ranked_within,
  sort_by-IsSorted, arith,
}
use mathlib.Core.Path.{subst}
use revenue_recovery_voice_a.Metrics.{item_at, min_ℤ, ceil, percentile}

-- A rank that the samples have.
rank_at : (r : ℤ) (n : ℕ) → pos 1 ≤ℤ r → r ≤ℤ pos n → (i : ℕ) × (r ≡ pos (suc i)) × (suc i ≤ n)
rank_at (pos (suc i)) n h k = (i, refl, omega arith)
rank_at (pos zero) n h k = absurd (omega arith)
rank_at (negsuc i) n h k = absurd (omega arith)

item_at-ranked :
    {A : Type 0} (xs : List A) (i : ℕ) (v : A)
    → suc i ≤ length xs
    → get_elem? xs i ≡ some v
    → item_at xs (min_ℤ (pos (suc i)) (pos (length xs)) -ℤ pos 1) ≡ ok v
unfolding item_at min_ℤ ◌-ℤ◌
item_at-ranked xs i v h at = ground (arith, at)

item_at-clipped :
    {A : Type 0} (x : A) (xs : List A) (i : ℕ) (v : A)
    → leb (suc i) (length (x ∷ xs)) ≡ false
    → get_elem? (x ∷ xs) (length xs) ≡ some v
    → item_at (x ∷ xs) (min_ℤ (pos (suc i)) (pos (length (x ∷ xs))) -ℤ pos 1) ≡ ok v
unfolding item_at min_ℤ ◌-ℤ◌
item_at-clipped x xs i v h at = ground (arith, at)

item_at-min :
    {A : Type 0} (ys : List A) (r : ℤ)
    → 1 ≤ length ys
    → pos 1 ≤ℤ r
    → (v : A) × (item_at ys (min_ℤ r (pos (length ys)) -ℤ pos 1) ≡ ok v)
item_at-min [] r k h = absurd (omega arith)
item_at-min (x ∷ xs) (pos zero) k h = absurd (omega arith)
item_at-min (x ∷ xs) (negsuc i) k h = absurd (omega arith)
item_at-min (x ∷ xs) (pos (suc i)) k h = elim (Bool-cases (leb (suc i) (length (x ∷ xs)))) [
  | inl inside ↦
      let (v, at) = get_elem?-within (x ∷ xs) i (ground arith) in
      (v, item_at-ranked (x ∷ xs) i v (ground arith) at)
  | inr outside ↦
      let (v, at) = get_elem?-within (x ∷ xs) (length xs) (omega arith) in
      (v, item_at-clipped x xs i v outside at)
]

module _ (fl : FloatOps) where
  open fl use {
    F, of_int, mul, le, trunc, le_refl, le_trans, le_total, of_int_mono, mul_mono_left,
    mul_mono_right, mul_exact, mul_one, trunc_mono, trunc_of_int, trunc_below_next,
  }

  trunc_within : (x : F) (k : ℕ) → k < 2 ^ 53 → le x (of_int (pos k)) ≡ true → trunc x ≤ℤ pos k
  trunc_within x k small h =
      subst (λ (t : ℤ). trunc x ≤ℤ t) (trunc_of_int k small) (trunc_mono x (of_int (pos k)) h)

  -- Which bounds a rounded-up number is within.
  ceil_within : (x : F) (k : ℕ) → k < 2 ^ 53 → (ceil fl x ≤ℤ pos k) ↔ (le x (of_int (pos k)) ≡ true)
  unfolding ceil
  ceil_within x k small = elim (Bool-cases (le x (of_int (trunc x)))) [
    | inl whole ↦ rw whole (
      λ h. le_trans x (of_int (trunc x)) (of_int (pos k)) whole (of_int_mono (trunc x) (pos k) h),
      λ h. trunc_within x k small h,
    )
    | inr between ↦ rw between (
      λ h.
          le_trans x (of_int (trunc x +ℤ pos 1)) (of_int (pos k)) (trunc_below_next x)
            (of_int_mono (trunc x +ℤ pos 1) (pos k) h),
      λ h. elim (Bool-cases (leb_ℤ (pos k) (trunc x))) [
        | inl above ↦ cc (
          between,
          le_trans x (of_int (pos k)) (of_int (trunc x)) h
              (of_int_mono (pos k) (trunc x) (ground arith)),
        )
        | inr below ↦ ground (arith, +ℤ_parts (trunc x) (pos 1))
      ],
    )
  ]

  ceil_pos : (x : F) → le x (of_int (pos 0)) ≡ false → pos 1 ≤ℤ ceil fl x
  ceil_pos x h = elim (Bool-cases (leb_ℤ (ceil fl x) (pos 0))) [
    | inl low ↦ cc (h, (ceil_within x 0 (omega arith)).0 (ground arith))
    | inr high ↦ ground arith
  ]

  ranked_reach :
      (x : F) (c i : ℕ)
      → c < 2 ^ 53
      → ceil fl x ≡ pos (suc i)
      → (suc i ≤ c) ↔ (le x (of_int (pos c)) ≡ true)
  ranked_reach x c i small e = (
    λ h. (ceil_within x c small).0 (rw e (omega arith)),
    λ h. omega (arith, ap pos_part e, ap neg_part e, (ceil_within x c small).1 h),
  )

  -- At least the share `p` of the samples is within `w`.
  abbrev pub Reaches : F → List F → F → Type 0
  Reaches p xs w =
      le (mul p (of_int (pos (length xs)))) (of_int (pos (count_if (λ z. le z w) xs))) ≡ true

  -- The smallest sample whose share reaches `p`: a value is within the bounds that at least that
  -- share of the samples is within.
  pub record IsPercentile (p : F) (xs : List F) (v : F) : Type 0 where
    pub among : IsAmong v xs
    pub reaches : (w : F) → (le v w ≡ true) ↔ Reaches p xs w

  module _ (p : F) (positive : le p (of_int (pos 0)) ≡ false)
      (share : le p (of_int (pos 1)) ≡ true) where
    reach_pos : (n : ℕ) → 1 ≤ n → le (mul p (of_int (pos n))) (of_int (pos 0)) ≡ false
    reach_pos n h = elim (Bool-cases (le (mul p (of_int (pos n))) (of_int (pos 0)))) [
      | inl none_needed ↦ cc (
        positive,
        le_trans p (mul p (of_int (pos n))) (of_int (pos 0))
            (subst (λ (y : F). le y (mul p (of_int (pos n))) ≡ true) (mul_one p)
              (mul_mono_left (of_int (pos 1)) (of_int (pos n)) p
                (le_total p (of_int (pos 0)) positive) (of_int_mono (pos 1) (pos n) (omega arith))))
            none_needed,
      )
      | inr some_needed ↦ some_needed
    ]

    pub reach-le : (n : ℕ) → n < 2 ^ 53 → le (mul p (of_int (pos n))) (of_int (pos n)) ≡ true
    reach-le n small =
        subst (λ (y : F). le (mul p (of_int (pos n))) y ≡ true)
          (mul_exact 1 n (omega arith) ∙ ap (λ (m : ℕ). of_int (pos m)) (omega arith))
          (mul_mono_right p (of_int (pos 1)) (of_int (pos n))
            (of_int_mono (pos 0) (pos n) (omega arith)) share)

    percentile_ranked :
        (x : F) (xs : List F) (i : ℕ) (v : F)
        → ceil fl (mul p (of_int (pos (length (sort_by le (x ∷ xs)))))) ≡ pos (suc i)
        → suc i ≤ length (sort_by le (x ∷ xs))
        → get_elem? (sort_by le (x ∷ xs)) i ≡ some v
        → percentile fl (x ∷ xs) p ≡ ok (some v)
    unfolding percentile
    percentile_ranked x xs i v e h at =
        rw (positive, e, item_at-ranked (sort_by le (x ∷ xs)) i v h at) refl

    -- However many samples there are, `percentile` returns one.
    pub percentile-returns :
        (x : F) (xs : List F) → (v : F) × (percentile fl (x ∷ xs) p ≡ ok (some v))
    unfolding percentile
    percentile-returns x xs =
        let ordered = sort_by le (x ∷ xs) in
        let some_items : 1 ≤ length ordered = omega (arith, length-sort_by le (x ∷ xs)) in
        let rank = ceil fl (mul p (of_int (pos (length ordered)))) in
        let (v, at) = item_at-min ordered rank some_items (
          ceil_pos (mul p (of_int (pos (length ordered))))
            (reach_pos (length ordered) some_items)) in
        (v, rw (positive, at) refl)

    -- For `0 < p <= 1` and fewer than 2^53 samples, at least one, `percentile` returns a sample and no
    -- exception, and a value is at least the percentile exactly if `p` times the number of samples is at
    -- most the number of samples that are not above the value.
    pub percentile-IsPercentile :
        (x : F) (xs : List F)
        → length (x ∷ xs) < 2 ^ 53
        → (v : F) × (percentile fl (x ∷ xs) p ≡ ok (some v)) × IsPercentile p (x ∷ xs) v
    percentile-IsPercentile x xs small =
        let n = length (x ∷ xs) in
        let ordered = sort_by le (x ∷ xs) in
        let reach = mul p (of_int (pos n)) in
        let same = length-sort_by le (x ∷ xs) in
        let (i, e, h) =
          rank_at (ceil fl reach) n (ceil_pos reach (reach_pos n (omega arith)))
            ((ceil_within reach n small).1 (reach-le n small)) in
        let (v, at) = get_elem?-within ordered i (omega arith) in
        (
          v,
          percentile_ranked x xs i v (ap (λ (m : ℕ). ceil fl (mul p (of_int (pos m)))) same ∙ e)
              (omega arith) at,
          record {
            among = IsAmong-sort_by le v (x ∷ xs) (get_elem?-IsAmong ordered i v at);
            reaches = λ w.
                let within =
                  ranked_within le le_trans le_total w ordered i v
                    (sort_by-IsSorted le le_trans le_total (x ∷ xs)) at in
                let counted = count_if-sort_by le (λ z. le z w) (x ∷ xs) in
                let few = count_if-le_length (λ z. le z w) (x ∷ xs) in
                let reaching =
                  ranked_reach reach (count_if (λ z. le z w) (x ∷ xs)) i (omega arith) e in
                (
                  λ g. reaching.0 (omega (arith, within.0 g)),
                  λ g. within.1 (omega (arith, reaching.1 g)),
                );
          },
        )
