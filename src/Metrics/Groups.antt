-- ===== src/Metrics/Groups.antt =====
-- The tool statistics of `compute` in `apps/api/observability/metrics.py`, in terms of the rows: the
-- grouping by name loses no row and mixes no two names.
use revenue_recovery_voice_a.Base.{
  ℕ, ◌+◌, ◌≡◌, refl, sym, ap, ◌∙◌, inl, inr, List, [], ◌∷◌, ◌++◌, map, filter, some, String, str_eq,
  eq_iff, Dict, lookup, insert, lookup-insert, NodupKeys, insert-NodupKeys, length, length-append,
  Bool-cases, sort_by, insert_by, IsAmong, IsAmong-sort_by, arith, if◌then◌else◌,
}
use mathlib.Core.List.{append-nil, append_assoc}
use revenue_recovery_voice_a.Metrics.{
  Sample, ToolRow, ToolStats, sample, set_default, add_row, group_from, item_le,
}

module _ {F : Type 0} where
  -- The rows of a tool, in order.
  abbrev pub rows_of : String → List (ToolRow F) → List (ToolRow F)
  rows_of name rows = filter (λ (r : ToolRow F). str_eq name r.name) rows

  rows_of-one :
      (name : String) (row : ToolRow F)
      → map sample (rows_of name (row ∷ []))
        ≡ (if str_eq name row.name then sample row ∷ [] else [])
  rows_of-one name row = ground arith

  lookup-add_row :
      (name : String) (row : ToolRow F) (grouped : Dict (List (Sample F)))
      → set_default (lookup name (add_row row grouped))
        ≡ set_default (lookup name grouped) ++ map sample (rows_of name (row ∷ []))
  unfolding add_row set_default
  lookup-add_row name row grouped = elim (Bool-cases (str_eq name row.name)) [
    | inl same ↦
        rw
          (
            rows_of-one name row,
            lookup-insert row.name name (set_default (lookup row.name grouped) ++ (sample row ∷ []))
                grouped,
            same,
            (eq_iff name row.name).0 same,
          )
          refl
    | inr differ ↦
        rw
          (
            rows_of-one name row,
            lookup-insert row.name name (set_default (lookup row.name grouped) ++ (sample row ∷ []))
                grouped,
            differ,
          )
          (sym (append-nil (set_default (lookup name grouped))))
  ]

  rows_of-cons :
      (name : String) (row : ToolRow F) (rows : List (ToolRow F))
      → map sample (rows_of name (row ∷ rows))
        ≡ map sample (rows_of name (row ∷ [])) ++ map sample (rows_of name rows)
  rows_of-cons name row rows = ground arith

  group_from-rows :
      (name : String) (rows : List (ToolRow F)) (grouped : Dict (List (Sample F)))
      → set_default (lookup name (group_from rows grouped))
        ≡ set_default (lookup name grouped) ++ map sample (rows_of name rows)
  unfolding group_from
  group_from-rows name [] grouped = sym (append-nil (set_default (lookup name grouped)))
  group_from-rows name (row ∷ rows) grouped =
      rw
        (
          group_from-rows name rows (add_row row grouped),
          lookup-add_row name row grouped,
          rows_of-cons name row rows,
        )
        (append_assoc (set_default (lookup name grouped)) (map sample (rows_of name (row ∷ [])))
          (map sample (rows_of name rows)))

  group_from-NodupKeys :
      (rows : List (ToolRow F)) (grouped : Dict (List (Sample F)))
      → NodupKeys grouped
      → NodupKeys (group_from rows grouped)
  unfolding group_from add_row
  group_from-NodupKeys [] grouped h = h
  group_from-NodupKeys (row ∷ rows) grouped h = group_from-NodupKeys rows (add_row row grouped) (
      insert-NodupKeys row.name (set_default (lookup row.name grouped) ++ (sample row ∷ [])) grouped
        h)

  -- How many rows the groups have together.
  abbrev pub sizes : Dict (List (Sample F)) → ℕ
  sizes [] = 0
  sizes ((name, rows) ∷ d) = length rows + sizes d

  sizes-insert :
      (name : String) (v : List (Sample F)) (d : Dict (List (Sample F)))
      → sizes (insert name v d) + length (set_default (lookup name d)) ≡ sizes d + length v
  unfolding set_default
  sizes-insert name v [] = omega arith
  sizes-insert name v ((other, rows) ∷ d) = elim (Bool-cases (str_eq name other)) [
    | inl same ↦ rw same (omega arith)
    | inr differ ↦ rw differ (omega (arith, sizes-insert name v d))
  ]

  pub sizes-group_from :
      (rows : List (ToolRow F)) (d : Dict (List (Sample F)))
      → sizes (group_from rows d) ≡ length rows + sizes d
  unfolding group_from add_row
  sizes-group_from [] d = omega arith
  sizes-group_from (row ∷ rows) d =
      let old = set_default (lookup row.name d) in
      omega (
        arith,
        sizes-group_from rows (add_row row d),
        sizes-insert row.name (old ++ (sample row ∷ [])) d,
        length-append old (sample row ∷ []),
      )

  sizes-insert_by :
      (x : String × List (Sample F)) (d : Dict (List (Sample F)))
      → sizes (insert_by item_le x d) ≡ sizes (x ∷ d)
  unfolding insert_by
  sizes-insert_by x [] = refl
  sizes-insert_by (name, rows) ((other, others) ∷ d) =
      ground (arith, sizes-insert_by (name, rows) d)

  pub sizes-sort_by : (d : Dict (List (Sample F))) → sizes (sort_by item_le d) ≡ sizes d
  unfolding sort_by
  sizes-sort_by [] = refl
  sizes-sort_by ((name, rows) ∷ d) =
      omega (arith, sizes-insert_by (name, rows) (sort_by item_le d), sizes-sort_by d)

  lookup-IsAmong :
      (name : String) (samples : List (Sample F)) (d : Dict (List (Sample F)))
      → NodupKeys d
      → IsAmong (name, samples) d
      → lookup name d ≡ some samples
  lookup-IsAmong name samples [] h k = absurd k
  lookup-IsAmong name samples ((other, others) ∷ d) h (inl same) = ground (
    arith,
    eq_iff name other,
    ap (λ (p : String × List (Sample F)). p.0) same,
    ap (λ (p : String × List (Sample F)). p.1) same,
  )
  lookup-IsAmong name samples ((other, others) ∷ d) h (inr there) =
      ground (arith, eq_iff name other, lookup-IsAmong name samples d h.1 there)

  -- What the groups hold of a name are the rows of that name.
  pub grouped_rows :
      (rows : List (ToolRow F)) (name : String) (samples : List (Sample F))
      → IsAmong (name, samples) (sort_by item_le (group_from rows []))
      → samples ≡ map sample (rows_of name rows)
  unfolding set_default
  grouped_rows rows name samples h =
      let d = group_from rows [] in
      ap set_default (
        sym (
          lookup-IsAmong name samples d (group_from-NodupKeys rows [] tt)
            (IsAmong-sort_by item_le (name, samples) d h)))
      ∙ group_from-rows name rows []

  abbrev pub total_calls : List (ToolStats F) → ℕ
  total_calls [] = 0
  total_calls (t ∷ ts) = t.calls + total_calls ts
