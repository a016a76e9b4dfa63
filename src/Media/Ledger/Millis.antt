-- ===== src/Media/Ledger/Millis.antt =====
-- `apps/api/media/playback_ledger.py`: its milliseconds and its bytes, under the laws of floats.
use mathlib.Core.Path.{subst}
use revenue_recovery_voice_a.Base.{
  ℕ, ◌+◌, ◌*◌, ◌/◌, ◌^◌, ◌<◌, ◌≡◌, refl, ap, ◌∙◌, List, [], ◌∷◌, some, String, Dict, lookup,
  AllValues, lookup-insert_self, length, ℤ, pos, ◌+ℤ◌, ◌-ℤ◌, ◌≤ℤ◌, max_ℤ, int_laws, arith, FloatOps,
}
use revenue_recovery_voice_a.Media.Ledger.{
  Ledger, on_chunk_sent, on_mark_ack, prune, on_item_started, bytes_to_ms,
  played_ms_for_current_item, queued_ms_for_current_item, unplayed_ms, outstanding_marks,
}
use revenue_recovery_voice_a.Media.Ledger.Invariant.{
  IsConsistent, WithinWatermarks, chunk-IsConsistent, ack-IsConsistent,
}
use revenue_recovery_voice_a.Media.Ledger.Acks.{ack_covers}

-- The bytes of a list of chunks.
abbrev pub total : List (String × ℕ) → ℕ
total [] = 0
total ((_, b) ∷ cs) = b + total cs

unfoldable pub send_all : List (String × ℕ) → Ledger → Ledger
send_all [] l = l
send_all ((name, b) ∷ cs) l = send_all cs (on_chunk_sent name (pos b) l)

add_regroup : (q : ℤ) (a b : ℕ) → q +ℤ pos a +ℤ pos b ≡ q +ℤ pos (a + b)
add_regroup q a b = omega int_laws

queued-send_all :
    (cs : List (String × ℕ)) (l : Ledger)
    → (send_all cs l).queued_bytes ≡ l.queued_bytes +ℤ pos (total cs)
unfolding send_all on_chunk_sent
queued-send_all [] l = omega int_laws
queued-send_all ((name, b) ∷ cs) l =
    queued-send_all cs (on_chunk_sent name (pos b) l) ∙ add_regroup l.queued_bytes b (total cs)

offset-send_all :
    (cs : List (String × ℕ)) (l : Ledger) → (send_all cs l).item_start_offset ≡ l.item_start_offset
unfolding send_all on_chunk_sent
offset-send_all [] l = refl
offset-send_all ((name, b) ∷ cs) l = offset-send_all cs (on_chunk_sent name (pos b) l)

send_all-IsConsistent :
    (cs : List (String × ℕ)) (l : Ledger) → IsConsistent l → IsConsistent (send_all cs l)
unfolding send_all
send_all-IsConsistent [] l h = h
send_all-IsConsistent ((name, b) ∷ cs) l h =
    send_all-IsConsistent cs (on_chunk_sent name (pos b) l) (chunk-IsConsistent name b l h)

item_started-IsConsistent :
    (item : String) (l : Ledger) → IsConsistent l → IsConsistent (on_item_started item l)
unfolding on_item_started
item_started-IsConsistent item l h = ground arith

ack_offset :
    (name : String) (l : Ledger) → (on_mark_ack name l).0.item_start_offset ≡ l.item_start_offset
unfolding on_mark_ack prune
ack_offset name l = ground arith

ack_queued : (name : String) (l : Ledger) → (on_mark_ack name l).0.queued_bytes ≡ l.queued_bytes
unfolding on_mark_ack prune
ack_queued name l = ground arith

last_mark :
    (name : String) (b : ℕ) (l : Ledger)
    → lookup name (on_chunk_sent name (pos b) l).marks ≡ some (l.queued_bytes +ℤ pos b)
unfolding on_chunk_sent
last_mark name b l = lookup-insert_self name (l.queued_bytes +ℤ pos b) l.marks

offset-chunk :
    (name : String) (b : ℕ) (l : Ledger)
    → (on_chunk_sent name (pos b) l).item_start_offset ≡ l.item_start_offset
unfolding on_chunk_sent
offset-chunk name b l = refl

queued-chunk :
    (name : String) (b : ℕ) (l : Ledger)
    → (on_chunk_sent name (pos b) l).queued_bytes ≡ l.queued_bytes +ℤ pos b
unfolding on_chunk_sent
queued-chunk name b l = refl

item_bytes :
    (item : String) (l : Ledger) (a b : ℕ)
    → (on_item_started item l).queued_bytes
        +ℤ pos a
        +ℤ pos b
        -ℤ (on_item_started item l).item_start_offset
      ≡ pos (a + b)
unfolding on_item_started
item_bytes item l a b = omega int_laws

none_between :
    (c p : ℤ) (d : Dict ℤ)
    → AllValues (λ cum. c +ℤ pos 1 ≤ℤ cum) d
    → AllValues (WithinWatermarks p c) d
    → d ≡ []
none_between c p [] a b = refl
none_between c p ((n, x) ∷ d) a b = absurd (omega int_laws)

max_mono : (a b c : ℤ) → a ≤ℤ b → max_ℤ c a ≤ℤ max_ℤ c b
max_mono a b c h = ground arith

module _ (fl : FloatOps) where
  open fl use {of_int, mul, div, trunc}

  bytes_to_ms_mono : (a b : ℤ) → a ≤ℤ b → bytes_to_ms fl a ≤ℤ bytes_to_ms fl b
  unfolding bytes_to_ms
  bytes_to_ms_mono a b h =
      let rate = fl.of_int_strict 0 8000 (omega arith) (omega arith) in
      let seconds =
        fl.div_mono (of_int a) (of_int b) (of_int (pos 8000)) rate (fl.of_int_mono a b h) in
      let millis =
        fl.mul_mono_right _ _ (of_int (pos 1000)) (fl.of_int_mono (pos 0) (pos 1000) (omega arith))
          seconds in
      max_mono (trunc (mul (div (of_int a) (of_int (pos 8000))) (of_int (pos 1000))))
        (trunc (mul (div (of_int b) (of_int (pos 8000))) (of_int (pos 1000)))) (pos 0)
        (fl.trunc_mono _ _ millis)

  bytes_to_ms_nonneg : (a : ℤ) → pos 0 ≤ℤ bytes_to_ms fl a
  unfolding bytes_to_ms
  bytes_to_ms_nonneg a = ground arith

  -- Whole seconds of audio convert without error.
  pub bytes_to_ms_seconds : (k : ℕ) → k < 2 ^ 40 → bytes_to_ms fl (pos (k * 8000)) ≡ pos (k * 1000)
  unfolding bytes_to_ms
  bytes_to_ms_seconds k h =
      let seconds = fl.div_exact k 8000 (omega arith) (omega arith) in
      let millis = fl.mul_exact k 1000 (omega arith) in
      let whole = fl.trunc_of_int (k * 1000) (omega arith) in
      ap (max_ℤ (pos 0))
        (ap (λ (x : fl.F). trunc (mul x (of_int (pos 1000)))) seconds ∙ ap trunc millis ∙ whole)
      ∙ ground arith

  -- For less than 2^39 seconds of audio the milliseconds of a byte count lie in the second that the
  -- bytes lie in: between the milliseconds of the whole seconds played and those of one second more.
  bytes_to_ms_bounds :
      (n : ℕ)
      → n < 8000 * 2 ^ 39
      → (pos (n / 8000 * 1000) ≤ℤ bytes_to_ms fl (pos n))
        × (bytes_to_ms fl (pos n) ≤ℤ pos (n / 8000 * 1000 + 1000))
  bytes_to_ms_bounds n h =
      let k : ℕ = n / 8000 in
      let low = bytes_to_ms_mono (pos (k * 8000)) (pos n) (omega arith) in
      let high = bytes_to_ms_mono (pos n) (pos ((k + 1) * 8000)) (omega arith) in
      (
        subst (λ (x : ℤ). x ≤ℤ bytes_to_ms fl (pos n)) (bytes_to_ms_seconds k (omega arith)) low,
        subst (λ (x : ℤ). bytes_to_ms fl (pos n) ≤ℤ x)
            (bytes_to_ms_seconds (k + 1) (omega arith) ∙ ap pos (omega arith)) high,
      )

  -- On a consistent ledger the time played of the current item is at least zero and at most the time
  -- queued of it, so a truncation never claims audio that was not handed over.
  pub played_ms-le-queued_ms :
      (l : Ledger)
      → IsConsistent l
      → (pos 0 ≤ℤ played_ms_for_current_item fl l)
        × (played_ms_for_current_item fl l ≤ℤ queued_ms_for_current_item fl l)
  unfolding played_ms_for_current_item queued_ms_for_current_item
  played_ms-le-queued_ms l h =
      (bytes_to_ms_nonneg _, bytes_to_ms_mono _ _ (omega (int_laws, h.ordered)))

  -- An item that starts on a consistent ledger, all of whose chunks are sent and whose last mark is
  -- acknowledged, has played exactly the milliseconds of its own bytes; nothing is left unplayed and no
  -- mark is outstanding. Earlier marks may never have been acknowledged.
  pub item_played_exactly :
      (item : String) (cs : List (String × ℕ)) (name : String) (b : ℕ) (l : Ledger)
      → IsConsistent l
      → let l' =
          (on_mark_ack name
            (on_chunk_sent name (pos b) (send_all cs (on_item_started item l)))).0 in
        (played_ms_for_current_item fl l' ≡ bytes_to_ms fl (pos (total cs + b)))
        × (unplayed_ms fl l' ≡ bytes_to_ms fl (pos 0))
        × (outstanding_marks l' ≡ 0)
  unfolding played_ms_for_current_item unplayed_ms outstanding_marks
  item_played_exactly item cs name b l h =
      let m = send_all cs (on_item_started item l) in
      let sent = on_chunk_sent name (pos b) m in
      let ok_sent : IsConsistent sent =
        chunk-IsConsistent name b m
          (send_all-IsConsistent cs _ (item_started-IsConsistent item l h)) in
      let (played, counted, beyond) = ack_covers name sent ok_sent (last_mark name b m) in
      let l' = (on_mark_ack name sent).0 in
      let acked = ack-IsConsistent name sent ok_sent in
      let offset =
        ack_offset name sent
        ∙ offset-chunk name b m
        ∙ offset-send_all cs (on_item_started item l) in
      let queued = ack_queued name sent ∙ queued-chunk name b m in
      let all = queued-send_all cs (on_item_started item l) in
      (
        ap (bytes_to_ms fl) (rw (played, offset, all) (item_bytes item l (total cs) b)),
        ap (bytes_to_ms fl) (rw (played, queued) (omega int_laws)),
        ap length (
            none_between (m.queued_bytes +ℤ pos b) l'.played_bytes l'.marks beyond (
              subst (λ (q : ℤ). AllValues (WithinWatermarks l'.played_bytes q) l'.marks) queued
                acked.outstanding)),
      )
