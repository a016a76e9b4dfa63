-- ===== src/Base/Dicts.antt =====
-- Python dicts keyed by strings, in insertion order, as association lists.
use Prim.Native.String.{String}
use mathlib.Core.Path.{◌≡◌, refl, subst}
use mathlib.Core.Logic.{◌≢◌, inl, inr}
use mathlib.Core.Bool.{Bool}
use mathlib.Core.Option.{Option, none, some}
use mathlib.Core.List.{List, [], ◌∷◌, ◌++◌}
use native.Mathlib.Omega.{arith}
use text.Mathlib.Text.{◌==◌ as str_eq}
use text.Mathlib.TextEquality.{eq_iff}
use revenue_recovery_voice_a.Base.Tests.{if◌then◌else◌, is_some, Bool-cases}

abbrev pub Dict {ℓ} : Type ℓ → Type ℓ
Dict V = List (String × V)

module _ {ℓ} {V : Type ℓ} where
  -- `d.get(k)`
  abbrev pub lookup : String → Dict V → Option V
  lookup k [] = none
  lookup k ((j, v) ∷ d) = if str_eq k j then some v else lookup k d

  -- `k in d`
  abbrev pub contains : String → Dict V → Bool
  contains k d = is_some (lookup k d)

  -- `d[k] = v`: an old key keeps its place, a new one comes last.
  abbrev pub insert : String → V → Dict V → Dict V
  insert k v [] = (k, v) ∷ []
  insert k v ((j, w) ∷ d) = if str_eq k j then (k, v) ∷ d else (j, w) ∷ insert k v d

  -- `d.pop(k, None)`, the dict that is left
  abbrev pub erase : String → Dict V → Dict V
  erase _ [] = []
  erase k ((j, w) ∷ d) = if str_eq k j then d else (j, w) ∷ erase k d

  abbrev pub keys : Dict V → List String
  keys [] = []
  keys ((j, _) ∷ d) = j ∷ keys d

  abbrev pub values : Dict V → List V
  values [] = []
  values ((_, v) ∷ d) = v ∷ values d

  -- No key is listed twice.
  abbrev pub NodupKeys : Dict V → Type ℓ
  NodupKeys [] = Unit
  NodupKeys ((k, _) ∷ d) = (lookup k d ≡ none) × NodupKeys d

  -- Every value satisfies `P`.
  abbrev pub AllValues {κ} : (V → Type κ) → Dict V → Type κ
  AllValues P [] = Unit
  AllValues P ((_, v) ∷ d) = P v × AllValues P d

  pub lookup-insert :
      (k j : String) (v : V) (d : Dict V)
      → lookup j (insert k v d) ≡ (if str_eq j k then some v else lookup j d)
  lookup-insert k j v [] = refl
  lookup-insert k j v ((i, w) ∷ d) =
      ground (arith, eq_iff k i, eq_iff j i, eq_iff j k, lookup-insert k j v d)

  pub lookup-insert_self : (k : String) (v : V) (d : Dict V) → lookup k (insert k v d) ≡ some v
  lookup-insert_self k v d = ground (arith, eq_iff k k, lookup-insert k k v d)

  pub lookup-insert_ne :
      (k j : String) (v : V) (d : Dict V) → j ≢ k → lookup j (insert k v d) ≡ lookup j d
  lookup-insert_ne k j v d h = ground (arith, eq_iff j k, lookup-insert k j v d)

  pub lookup-erase_ne : (k j : String) (d : Dict V) → j ≢ k → lookup j (erase k d) ≡ lookup j d
  lookup-erase_ne k j [] h = refl
  lookup-erase_ne k j ((i, w) ∷ d) h =
      ground (arith, eq_iff k i, eq_iff j i, lookup-erase_ne k j d h)

  pub lookup-erase_self : (k : String) (d : Dict V) → NodupKeys d → lookup k (erase k d) ≡ none
  lookup-erase_self k [] h = refl
  lookup-erase_self k ((i, w) ∷ d) h = ground (arith, eq_iff k i, lookup-erase_self k d h.1)

  pub insert-NodupKeys : (k : String) (v : V) (d : Dict V) → NodupKeys d → NodupKeys (insert k v d)
  insert-NodupKeys k v [] h = (refl, tt)
  insert-NodupKeys k v ((i, w) ∷ d) h =
      ground (arith, eq_iff k i, eq_iff i k, insert-NodupKeys k v d h.1, lookup-insert k i v d)

  pub erase-NodupKeys : (k : String) (d : Dict V) → NodupKeys d → NodupKeys (erase k d)
  erase-NodupKeys k [] h = tt
  erase-NodupKeys k ((i, w) ∷ d) h =
      ground (arith, eq_iff k i, eq_iff i k, erase-NodupKeys k d h.1, lookup-erase_ne k i d)

  pub AllValues-lookup {κ} :
      (P : V → Type κ) (k : String) (d : Dict V) {v : V} → AllValues P d → lookup k d ≡ some v → P v
  AllValues-lookup P k [] h e = cc
  AllValues-lookup P k ((i, w) ∷ d) {v} h e = elim (Bool-cases (str_eq k i)) [
    | inl same ↦ subst P (cc (same, e)) h.0
    | inr other ↦ AllValues-lookup P k d h.1 (ground arith)
  ]

  pub insert-AllValues {κ} :
      (P : V → Type κ) (k : String) (v : V) (d : Dict V)
      → P v
      → AllValues P d
      → AllValues P (insert k v d)
  insert-AllValues P k v [] p h = (p, tt)
  insert-AllValues P k v ((i, w) ∷ d) p h = ground (arith, insert-AllValues P k v d p h.1)

  pub erase-AllValues {κ} :
      (P : V → Type κ) (k : String) (d : Dict V) → AllValues P d → AllValues P (erase k d)
  erase-AllValues P k [] h = tt
  erase-AllValues P k ((i, w) ∷ d) h = ground (arith, erase-AllValues P k d h.1)

  pub keys-insert_new :
      (k : String) (v : V) (d : Dict V)
      → lookup k d ≡ none
      → keys (insert k v d) ≡ keys d ++ (k ∷ [])
  keys-insert_new k v [] h = refl
  keys-insert_new k v ((i, w) ∷ d) h = ground (arith, keys-insert_new k v d)
