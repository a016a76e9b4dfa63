-- ===== src/Media/Ledger/Invariant.antt =====
-- `apps/api/media/playback_ledger.py`: consistency of the ledger.
use revenue_recovery_voice_a.Base.{
  ℕ, ◌≡◌, refl, List, [], ◌∷◌, Option, none, String, Dict, lookup, NodupKeys, AllValues,
  insert-AllValues, erase-AllValues, insert-NodupKeys, erase-NodupKeys, AllValues-lookup, ℤ, pos,
  ◌+ℤ◌, ◌≤ℤ◌, int_laws, arith, Option-cases, inl, inr,
}
use revenue_recovery_voice_a.Media.Ledger.{
  Ledger, new_ledger, on_chunk_sent, keep_beyond, prune, on_mark_ack, on_item_started,
  begin_new_item,
}

-- A cumulative count lies between the two watermarks.
abbrev pub WithinWatermarks : ℤ → ℤ → ℤ → Type 0
WithinWatermarks played queued cum = (played ≤ℤ cum) × (cum ≤ℤ queued)

-- No more is played than was queued, every outstanding mark lies between the two watermarks, no
-- mark is listed twice, and the current item does not start beyond what was queued.
pub record IsConsistent (l : Ledger) : Type 0 where
  pub counted : pos 0 ≤ℤ l.played_bytes
  pub ordered : l.played_bytes ≤ℤ l.queued_bytes
  pub outstanding : AllValues (WithinWatermarks l.played_bytes l.queued_bytes) l.marks
  pub distinct : NodupKeys l.marks
  pub started : l.item_start_offset ≤ℤ l.queued_bytes

-- The calls that change the ledger.
pub data LedgerOp : Type 0 where
  chunk_sent : String → ℕ → LedgerOp
  mark_ack : String → LedgerOp
  item_started : String → LedgerOp
  new_item : Option String → LedgerOp

unfoldable pub apply : LedgerOp → Ledger → Ledger
apply (chunk_sent name bytes) l = on_chunk_sent name (pos bytes) l
apply (mark_ack name) l = (on_mark_ack name l).0
apply (item_started item) l = on_item_started item l
apply (new_item item) l = begin_new_item item l

unfoldable pub apply_all : List LedgerOp → Ledger → Ledger
apply_all [] l = l
apply_all (op ∷ ops) l = apply_all ops (apply op l)

widen_queued :
    (played queued queued' : ℤ) (d : Dict ℤ)
    → queued ≤ℤ queued'
    → AllValues (WithinWatermarks played queued) d
    → AllValues (WithinWatermarks played queued') d
widen_queued played queued queued' [] h a = tt
widen_queued played queued queued' ((n, c) ∷ d) h a =
    ((a.0.0, omega arith), widen_queued played queued queued' d h a.1)

keep_beyond-within :
    (played played' queued : ℤ) (d : Dict ℤ)
    → AllValues (WithinWatermarks played queued) d
    → AllValues (WithinWatermarks played' queued) (keep_beyond played' d)
unfolding keep_beyond
keep_beyond-within played played' queued [] a = tt
keep_beyond-within played played' queued ((n, c) ∷ d) a =
    ground (arith, keep_beyond-within played played' queued d a.1)

pub lookup-keep_beyond :
    (k : String) (played : ℤ) (d : Dict ℤ)
    → lookup k d ≡ none
    → lookup k (keep_beyond played d) ≡ none
unfolding keep_beyond
lookup-keep_beyond k played [] h = refl
lookup-keep_beyond k played ((n, c) ∷ d) h = ground (arith, lookup-keep_beyond k played d)

pub keep_beyond-NodupKeys :
    (played : ℤ) (d : Dict ℤ) → NodupKeys d → NodupKeys (keep_beyond played d)
unfolding keep_beyond
keep_beyond-NodupKeys played [] h = tt
keep_beyond-NodupKeys played ((n, c) ∷ d) h =
    ground (arith, keep_beyond-NodupKeys played d h.1, lookup-keep_beyond n played d h.0)

new_ledger-IsConsistent : IsConsistent new_ledger
unfolding new_ledger
new_ledger-IsConsistent = ground arith

pub chunk-IsConsistent :
    (name : String) (bytes : ℕ) (l : Ledger)
    → IsConsistent l
    → IsConsistent (on_chunk_sent name (pos bytes) l)
unfolding on_chunk_sent
chunk-IsConsistent name bytes l h = record {
  counted = h.counted;
  ordered = omega int_laws;
  outstanding =
      insert-AllValues _ name (l.queued_bytes +ℤ pos bytes) l.marks (omega int_laws, omega int_laws)
        (widen_queued l.played_bytes l.queued_bytes (l.queued_bytes +ℤ pos bytes) l.marks
          (omega int_laws) h.outstanding);
  distinct = insert-NodupKeys name _ l.marks h.distinct;
  started = omega int_laws;
}

pub ack-IsConsistent :
    (name : String) (l : Ledger) → IsConsistent l → IsConsistent (on_mark_ack name l).0
unfolding on_mark_ack prune
ack-IsConsistent name l h = elim (Option-cases (lookup name l.marks)) [
  | inl unknown ↦ rw (unknown, on_mark_ack) h
  | inr (c, known) ↦
      let (low, high) =
        AllValues-lookup (WithinWatermarks l.played_bytes l.queued_bytes) name l.marks h.outstanding
          known in
      rw (known, on_mark_ack)
        (record {
          counted = ground arith;
          ordered = ground arith;
          outstanding =
              keep_beyond-within l.played_bytes _ l.queued_bytes _
                (erase-AllValues _ name l.marks h.outstanding);
          distinct = keep_beyond-NodupKeys _ _ (erase-NodupKeys name l.marks h.distinct);
          started = h.started;
        })
]

apply-IsConsistent : (op : LedgerOp) (l : Ledger) → IsConsistent l → IsConsistent (apply op l)
unfolding apply on_item_started begin_new_item
apply-IsConsistent (chunk_sent name bytes) l h = chunk-IsConsistent name bytes l h
apply-IsConsistent (mark_ack name) l h = ack-IsConsistent name l h
apply-IsConsistent (item_started item) l h = ground arith
apply-IsConsistent (new_item item) l h = ground arith

-- From a consistent ledger, every sequence of sent chunks, acknowledgements in any order, item
-- starts and resets leaves the ledger consistent.
pub apply_all-IsConsistent :
    (ops : List LedgerOp) (l : Ledger) → IsConsistent l → IsConsistent (apply_all ops l)
unfolding apply_all
apply_all-IsConsistent [] l h = h
apply_all-IsConsistent (op ∷ ops) l h =
    apply_all-IsConsistent ops (apply op l) (apply-IsConsistent op l h)
