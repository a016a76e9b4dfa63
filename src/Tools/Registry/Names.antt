-- ===== src/Tools/Registry/Names.antt =====
-- The view of the registry that a client's `tools_enabled` gives.
use revenue_recovery_voice_a.Base.{
  Bool, true, false, not, ◌&&◌, ◌||◌, List, [], ◌∷◌, ◌++◌, none, some, String, str_eq, lookup,
  contains, insert, keys, lookup-insert, keys-insert_new, filter, ok, is_ok as returns, ◌≡◌, refl,
  sym, ap, ◌∙◌, arith, Bool-cases, Option-cases, inl, inr,
}
use revenue_recovery_voice_a.Tools.Registry.{
  ToolSpec, ToolRegistry, register, filtered_from, filtered,
}

-- No name is listed twice, nor one that was seen before.
abbrev no_repeat : (String → Bool) → List String → Bool
no_repeat seen [] = true
no_repeat seen (x ∷ xs) = not (seen x) && no_repeat (λ y. str_eq y x || seen y) xs

no_repeat_cong :
    (seen seen' : String → Bool) (xs : List String)
    → ((y : String) → seen y ≡ seen' y)
    → no_repeat seen xs ≡ no_repeat seen' xs
no_repeat_cong seen seen' [] same = refl
no_repeat_cong seen seen' (x ∷ xs) same =
    let rest =
      no_repeat_cong (λ y. str_eq y x || seen y) (λ y. str_eq y x || seen' y) xs
        (λ y. ap (λ b. str_eq y x || b) (same y)) in
    rw (same x) (rw rest refl)

append_nil : {A : Type 0} (xs : List A) → xs ≡ xs ++ []
append_nil [] = refl
append_nil (z ∷ xs) = ap (λ l. z ∷ l) (append_nil xs)

append_snoc :
    {A : Type 0} (xs : List A) (x : A) (ys : List A) → (xs ++ (x ∷ [])) ++ ys ≡ xs ++ (x ∷ ys)
append_snoc [] x ys = refl
append_snoc (z ∷ xs) x ys = ap (λ l. z ∷ l) (append_snoc xs x ys)

module _ {S : Type 0} (specs : ToolRegistry S) where
  -- Every spec stands under its own name, as `register` puts it.
  abbrev IsKeyed : Type 0
  IsKeyed = (name : String) (spec : ToolSpec S) → lookup name specs ≡ some spec → spec.name ≡ name

  abbrev is_implemented : String → Bool
  is_implemented name = contains name specs

  contains-insert :
      (name : String) (spec : ToolSpec S) (out : ToolRegistry S) (y : String)
      → contains y (insert name spec out) ≡ (str_eq y name || contains y out)
  contains-insert name spec out y = ground (arith, lookup-insert name y spec out)

  -- An enabled name that is implemented and not in the view yet.
  step :
      (name : String) (enabled : List String) (out : ToolRegistry S) {spec : ToolSpec S}
      → lookup name specs ≡ some spec
      → spec.name ≡ name
      → contains name out ≡ false
      → filtered_from specs (name ∷ enabled) out
        ≡ filtered_from specs enabled (insert name spec out)
  unfolding filtered_from register
  step name enabled out known named new =
      rw (known, filtered_from) (rw (named, register) (rw (new, register) refl))

  skip :
      (name : String) (enabled : List String) (out : ToolRegistry S)
      → lookup name specs ≡ none
      → filtered_from specs (name ∷ enabled) out ≡ filtered_from specs enabled out
  unfolding filtered_from
  skip name enabled out unknown = rw (unknown, filtered_from) refl

  filter_known :
      (name : String) (enabled : List String) {spec : ToolSpec S}
      → lookup name specs ≡ some spec
      → filter is_implemented (name ∷ enabled) ≡ name ∷ filter is_implemented enabled
  filter_known name enabled known = ground (arith, known)

  filter_unknown :
      (name : String) (enabled : List String)
      → lookup name specs ≡ none
      → filter is_implemented (name ∷ enabled) ≡ filter is_implemented enabled
  filter_unknown name enabled unknown = ground (arith, unknown)

  filtered_from-returns :
      IsKeyed
      → (enabled : List String) (out : ToolRegistry S)
      → returns (filtered_from specs enabled out)
        ≡ no_repeat (λ y. contains y out) (filter is_implemented enabled)
  unfolding filtered_from register
  filtered_from-returns keyed [] out = refl
  filtered_from-returns keyed (name ∷ enabled) out = elim (Option-cases (lookup name specs)) [
    | inl unknown ↦ ground (arith, unknown, filtered_from-returns keyed enabled out)
    | inr (spec, known) ↦ elim (Bool-cases (contains name out)) [
      | inl repeated ↦ ground (arith, known, repeated, keyed name spec known)
      | inr new ↦ rw (step name enabled out {spec = spec} known (keyed name spec known) new) (
          filtered_from-returns keyed enabled (insert name spec out)
          ∙ no_repeat_cong _ _ (filter is_implemented enabled) (contains-insert name spec out)
          ∙ rw (filter_known name enabled {spec = spec} known) (rw new refl))
    ]
  ]

  filtered_from-keys :
      IsKeyed
      → (enabled : List String) (out : ToolRegistry S) {r : ToolRegistry S}
      → filtered_from specs enabled out ≡ ok r
      → keys r ≡ keys out ++ filter is_implemented enabled
  unfolding filtered_from register
  filtered_from-keys keyed [] out {r} h = ap keys (ground (arith, h)) ∙ append_nil (keys out)
  filtered_from-keys keyed (name ∷ enabled) out {r} h = elim (Option-cases (lookup name specs)) [
    | inl unknown ↦
        filtered_from-keys keyed enabled out {r = r} (sym (skip name enabled out unknown) ∙ h)
        ∙ ap (λ l. keys out ++ l) (sym (filter_unknown name enabled unknown))
    | inr (spec, known) ↦ elim (Bool-cases (contains name out)) [
      | inl repeated ↦ ground (arith, known, repeated, keyed name spec known, h)
      | inr new ↦
          filtered_from-keys keyed enabled (insert name spec out) {r = r}
            (sym (step name enabled out {spec = spec} known (keyed name spec known) new) ∙ h)
          ∙ ap (λ l. l ++ filter is_implemented enabled)
              (keys-insert_new name spec out (ground (arith, new)))
          ∙ append_snoc (keys out) name (filter is_implemented enabled)
          ∙ ap (λ l. keys out ++ l) (sym (filter_known name enabled {spec = spec} known))
    ]
  ]

  -- On a registry whose specs stand under their own names, `filtered` returns exactly when no
  -- implemented name is listed twice. Otherwise it raises; a name that is not implemented is no error.
  filtered-returns :
      IsKeyed
      → (enabled : List String)
      → returns (filtered specs enabled) ≡ no_repeat (λ y. false) (filter is_implemented enabled)
  unfolding filtered
  filtered-returns keyed enabled = filtered_from-returns keyed enabled []

  -- On a registry whose specs stand under their own names, what `filtered` returns has the implemented
  -- names in the order listed.
  filtered-keys :
      IsKeyed
      → (enabled : List String) {r : ToolRegistry S} → filtered specs enabled ≡ ok r
      → keys r ≡ filter is_implemented enabled
  unfolding filtered
  filtered-keys keyed enabled {r} h = filtered_from-keys keyed enabled [] {r = r} h
