-- ===== src/Media/Ledger/Acks.antt =====
-- `apps/api/media/playback_ledger.py`: sequences of acknowledgements, with duplicates, unknown and
-- lost marks.
use revenue_recovery_voice_a.Base.{
  ◌≡◌, refl, ap, ◌∙◌, true, false, List, [], ◌∷◌, Option, none, some, String, Dict, lookup, erase,
  NodupKeys, AllValues, AllValues-lookup, lookup-erase_self, lookup-erase_ne, erase-NodupKeys, ℤ,
  pos, ◌+ℤ◌, ◌≤ℤ◌, max_ℤ, leb_ℤ, arith, Option-cases, Bool-cases, inl, inr, str_eq, eq_iff,
}
use revenue_recovery_voice_a.Media.Ledger.{Ledger, keep_beyond, prune, on_mark_ack, begin_new_item}
use revenue_recovery_voice_a.Media.Ledger.Invariant.{
  IsConsistent, WithinWatermarks, lookup-keep_beyond, keep_beyond-NodupKeys,
}

-- A played count after one more acknowledged mark, if that mark is outstanding.
abbrev advance : ℤ → Option ℤ → ℤ
advance played none = played
advance played (some cum) = max_ℤ played cum

-- The highest cumulative count among the named marks and `played`.
unfoldable pub furthest : List String → Dict ℤ → ℤ → ℤ
furthest [] marks played = played
furthest (n ∷ ns) marks played = furthest ns marks (advance played (lookup n marks))

unfoldable pub ack_all : List String → Ledger → Ledger
ack_all [] l = l
ack_all (n ∷ ns) l = ack_all ns (on_mark_ack n l).0

-- Two mark tables that no acknowledgement can tell apart once `played` is reached.
Agree : ℤ → Dict ℤ → Dict ℤ → Type 0
Agree played d d' = (k : String) → advance played (lookup k d) ≡ advance played (lookup k d')

advance_mono :
    (p p' : ℤ) (a b : Option ℤ) → p ≤ℤ p' → advance p a ≡ advance p b → advance p' a ≡ advance p' b
advance_mono p p' none none h e = refl
advance_mono p p' none (some c) h e = ground arith
advance_mono p p' (some c) none h e = ground arith
advance_mono p p' (some c) (some c') h e = ground arith

le-advance : (p : ℤ) (o : Option ℤ) → p ≤ℤ advance p o
le-advance p none = omega arith
le-advance p (some c) = ground arith

furthest-Agree :
    (ns : List String) (p : ℤ) (d d' : Dict ℤ) → Agree p d d' → furthest ns d p ≡ furthest ns d' p
unfolding furthest Agree
furthest-Agree [] p d d' h = refl
furthest-Agree (n ∷ ns) p d d' h =
    furthest-Agree ns (advance p (lookup n d)) d d' (λ k.
      advance_mono p (advance p (lookup n d)) (lookup k d) (lookup k d') (le-advance p (lookup n d))
        (h k))
    ∙ ap (furthest ns d') (h n)

keep_beyond-Agree :
    (p : ℤ) (d : Dict ℤ) (k : String)
    → NodupKeys d
    → advance p (lookup k (keep_beyond p d)) ≡ advance p (lookup k d)
unfolding keep_beyond
keep_beyond-Agree p [] k u = refl
keep_beyond-Agree p ((n, c) ∷ d) k u =
    ground (arith, eq_iff k n, lookup-keep_beyond k p d, keep_beyond-Agree p d k u.1)

erase-Agree :
    (p c : ℤ) (n k : String) (d : Dict ℤ)
    → NodupKeys d
    → lookup n d ≡ some c
    → c ≤ℤ p
    → advance p (lookup k (erase n d)) ≡ advance p (lookup k d)
erase-Agree p c n k d u known low = elim (Bool-cases (str_eq k n)) [
  | inl same ↦ ground (arith, eq_iff k n, lookup-erase_self n d u)
  | inr other ↦ rw (lookup-erase_ne n k d (λ e. ground (arith, eq_iff k n)))
]

ack_known :
    (n : String) (l : Ledger) {c : ℤ}
    → lookup n l.marks ≡ some c
    → on_mark_ack n l ≡ (
      record l {
        marks = keep_beyond (max_ℤ l.played_bytes c) (erase n l.marks);
        played_bytes = max_ℤ l.played_bytes c;
      },
      true,
    )
unfolding on_mark_ack prune
ack_known n l known = rw (known, on_mark_ack)

ack_unknown : (n : String) (l : Ledger) → lookup n l.marks ≡ none → on_mark_ack n l ≡ (l, false)
unfolding on_mark_ack
ack_unknown n l unknown = rw (unknown, on_mark_ack)

ack_Agree :
    (n : String) (l : Ledger) {c : ℤ}
    → NodupKeys l.marks
    → lookup n l.marks ≡ some c
    → Agree
        (max_ℤ l.played_bytes c)
        (keep_beyond (max_ℤ l.played_bytes c) (erase n l.marks))
        l.marks
unfolding Agree
ack_Agree n l {c} u known k =
    keep_beyond-Agree (max_ℤ l.played_bytes c) (erase n l.marks) k (erase-NodupKeys n l.marks u)
    ∙ erase-Agree (max_ℤ l.played_bytes c) c n k l.marks u known (ground arith)

ahead_le : (x c : ℤ) → leb_ℤ x c ≡ false → c +ℤ pos 1 ≤ℤ x
unfolding ◌+ℤ◌
ahead_le x c h = ground arith

keep_beyond-beyond : (c : ℤ) (d : Dict ℤ) → AllValues (λ cum. c +ℤ pos 1 ≤ℤ cum) (keep_beyond c d)
unfolding keep_beyond
keep_beyond-beyond c [] = tt
keep_beyond-beyond c ((n, x) ∷ d) = elim (Bool-cases (leb_ℤ x c)) [
  | inl passed ↦ rw passed (keep_beyond-beyond c d)
  | inr ahead ↦ rw ahead (ahead_le x c ahead, keep_beyond-beyond c d)
]

-- After any acknowledgements, in any order, with repetitions and names that are not outstanding,
-- the played count is the highest cumulative count among the acknowledged marks that were
-- outstanding at the start, or the old count if that is higher.
pub ack_all-furthest :
    (ns : List String) (l : Ledger)
    → NodupKeys l.marks
    → (ack_all ns l).played_bytes ≡ furthest ns l.marks l.played_bytes
unfolding ack_all furthest
ack_all-furthest [] l u = refl
ack_all-furthest (n ∷ ns) l u = elim (Option-cases (lookup n l.marks)) [
  | inl unknown ↦
      rw (ack_unknown n l unknown, ack_all) (rw (unknown, furthest) (ack_all-furthest ns l u))
  | inr (c, known) ↦
      let played = max_ℤ l.played_bytes c in
      let rest = keep_beyond played (erase n l.marks) in
      rw (ack_known n l known, ack_all)
        (rw (known, furthest)
          (ack_all-furthest ns (record l { marks = rest; played_bytes = played })
              (keep_beyond-NodupKeys played (erase n l.marks) (erase-NodupKeys n l.marks u))
            ∙ furthest-Agree ns played rest l.marks (ack_Agree n l u known)))
]

-- Acknowledging a mark a second time changes nothing and is reported as not counted.
ack_twice :
    (n : String) (l : Ledger)
    → NodupKeys l.marks
    → on_mark_ack n (on_mark_ack n l).0 ≡ ((on_mark_ack n l).0, false)
ack_twice n l u = elim (Option-cases (lookup n l.marks)) [
  | inl unknown ↦ rw (ack_unknown n l unknown) (ack_unknown n l unknown)
  | inr (c, known) ↦
      rw (ack_known n l known)
        (ack_unknown n _ (lookup-keep_beyond n _ (erase n l.marks) (lookup-erase_self n l.marks u)))
]

-- On a consistent ledger an acknowledged mark sets the played count to its cumulative count, and
-- every mark that is left outstanding lies beyond it, so a lost earlier acknowledgement is covered.
pub ack_covers :
    (n : String) (l : Ledger) {c : ℤ}
    → IsConsistent l
    → lookup n l.marks ≡ some c
    → ((on_mark_ack n l).0.played_bytes ≡ c)
      × ((on_mark_ack n l).1 ≡ true)
      × AllValues (λ cum. c +ℤ pos 1 ≤ℤ cum) (on_mark_ack n l).0.marks
ack_covers n l {c} h known =
    let (low, high) =
      AllValues-lookup (WithinWatermarks l.played_bytes l.queued_bytes) n l.marks h.outstanding
        known in
    let top : max_ℤ l.played_bytes c ≡ c = ground arith in
    rw (ack_known n l known) (rw top (refl, refl, keep_beyond-beyond c (erase n l.marks)))

-- Once Twilio's buffer is cleared, no acknowledgement that was in flight counts: any sequence of
-- them leaves the ledger as the reset left it, with nothing unplayed and the item at offset zero.
pub acks_after_reset :
    (ns : List String) (item : Option String) (l : Ledger)
    → ack_all ns (begin_new_item item l) ≡ begin_new_item item l
unfolding ack_all begin_new_item on_mark_ack
acks_after_reset [] item l = refl
acks_after_reset (n ∷ ns) item l = acks_after_reset ns item l
