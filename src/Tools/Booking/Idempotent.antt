-- ===== src/Tools/Booking/Idempotent.antt =====
-- `apps/api/tools/booking.py`: the booking of one call and slot, dispatched any number of times.
use revenue_recovery_voice_a.Base.{
  Bool, true, false, List, [], ◌∷◌, Option, some, String, eq_iff, ℤ, Dict, lookup, lookup-insert,
  lookup-insert_self, ok, ◌≡◌, refl, arith, Option-cases, Result-cases, inl, inr,
}
use revenue_recovery_voice_a.Tools.Registry.{ToolResult}
use revenue_recovery_voice_a.Tools.Booking.{
  Booking, BookingRequest, Calendar, BookingCall, event_type, booked, guarded, book_appointment,
}

module _ {D S : Type 0} (calendar : Calendar D S) where
  -- Bookings one after the other, each with its event types.
  abbrev pub book_all :
      List (Option ℤ × Option ℤ × BookingCall) → Dict (Booking D) × S → Dict (Booking D) × S
  book_all [] s = s
  book_all ((configured, default, call) ∷ calls) s =
      book_all calls (book_appointment calendar configured default call s).1

  guarded_keeps :
      (key : String) (request : BookingRequest D) (results : Dict (Booking D)) (world : S)
      {b : Booking D}
      → lookup key results ≡ some b
      → lookup key (guarded calendar request results world).1.0 ≡ some b
  unfolding guarded
  guarded_keeps key request results world {b} h =
      elim (Option-cases (lookup request.idempotency_key results)) [
        | inr (existing, hit) ↦ rw (hit, guarded) h
        | inl miss ↦ elim (Result-cases (calendar.create_booking request world).0) [
          | inr (e, refused) ↦ rw (miss, guarded) (rw refused h)
          | inl (booking, made) ↦
              rw (miss, guarded)
                (rw made (
                  ground (
                    arith,
                    lookup-insert request.idempotency_key key booking results,
                    eq_iff key request.idempotency_key,
                  )))
        ]
      ]

  book_keeps :
      (key : String) (configured default : Option ℤ) (call : BookingCall)
      (results : Dict (Booking D)) (world : S) {b : Booking D}
      → lookup key results ≡ some b
      → lookup key (book_appointment calendar configured default call (results, world)).1.0 ≡ some b
  unfolding book_appointment
  book_keeps key configured default call results world {b} h =
      elim (Option-cases (event_type configured default)) [
        | inl unset ↦ rw (unset, book_appointment) h
        | inr (i, set) ↦ elim (Option-cases (calendar.fromisoformat call.slot_start)) [
          | inl bad ↦ rw (set, book_appointment) (rw bad h)
          | inr (start, good) ↦
              rw (set, book_appointment) (rw good (guarded_keeps key _ results world {b = b} h))
        ]
      ]

  book_all_keeps :
      (key : String) (calls : List (Option ℤ × Option ℤ × BookingCall)) (results : Dict (Booking D))
      (world : S) {b : Booking D}
      → lookup key results ≡ some b
      → lookup key (book_all calls (results, world)).0 ≡ some b
  book_all_keeps key [] results world {b} h = h
  book_all_keeps key ((configured, default, call) ∷ calls) results world {b} h =
      let after = (book_appointment calendar configured default call (results, world)).1 in
      book_all_keeps key calls after.0 after.1 {b = b}
        (book_keeps key configured default call results world {b = b} h)

  -- A booking that is kept under its key.
  again :
      (configured default : Option ℤ) (call : BookingCall) (results : Dict (Booking D)) (world : S)
      {i : ℤ} {start : D} {b : Booking D}
      → event_type configured default ≡ some i
      → calendar.fromisoformat call.slot_start ≡ some start
      → lookup (calendar.idempotency_key call.call_id call.slot_start) results ≡ some b
      → book_appointment calendar configured default call (results, world)
        ≡ (ok (booked calendar b true), (results, world))
  unfolding book_appointment guarded
  again configured default call results world set good kept =
      rw (set, book_appointment) (rw good (rw (kept, guarded) refl))

  kept_after :
      (request : BookingRequest D) (results : Dict (Booking D)) (world : S) {r : ToolResult}
      → (guarded calendar request results world).0 ≡ ok r
      → (b : Booking D) × (deduplicated : Bool) × (r ≡ booked calendar b deduplicated)
        × (lookup request.idempotency_key (guarded calendar request results world).1.0 ≡ some b)
  unfolding guarded
  kept_after request results world {r} h =
      elim (Option-cases (lookup request.idempotency_key results)) [
        | inr (existing, hit) ↦ (existing, true, ground (arith, hit, h), rw (hit, guarded) hit)
        | inl miss ↦ elim (Result-cases (calendar.create_booking request world).0) [
          | inr (e, refused) ↦ ground (arith, miss, refused, h)
          | inl (booking, made) ↦ (
            booking,
            false,
            ground (arith, miss, made, h),
            rw (miss, guarded)
                (rw made (lookup-insert_self request.idempotency_key booking results)),
          )
        ]
      ]

  -- Once a booking of a call and a slot has succeeded, every later booking of the same call and slot
  -- returns that appointment, marked as deduplicated, without calling the calendar again, whatever
  -- name, number and notes it carries and whatever was booked in between.
  pub book_once :
      (configured default configured' default' : Option ℤ) (call call' : BookingCall)
      (between : List (Option ℤ × Option ℤ × BookingCall)) (results : Dict (Booking D)) (world : S)
      {i i' : ℤ} {start : D} {r : ToolResult}
      → event_type configured default ≡ some i
      → event_type configured' default' ≡ some i'
      → calendar.fromisoformat call.slot_start ≡ some start
      → call'.call_id ≡ call.call_id
      → call'.slot_start ≡ call.slot_start
      → (book_appointment calendar configured default call (results, world)).0 ≡ ok r
      → let later =
          book_all between (book_appointment calendar configured default call (results, world)).1 in
        (b : Booking D) × (deduplicated : Bool) × (r ≡ booked calendar b deduplicated)
        × (book_appointment calendar configured' default' call' later
            ≡ (ok (booked calendar b true), later))
  unfolding book_appointment guarded
  book_once configured default configured' default' call call' between results world {i} {i'}
        {start} {r} set set' good same_call same_slot done =
      let request : BookingRequest D = record {
        event_type_id = i;
        start = start;
        attendee_name = call.caller_name;
        attendee_phone = call.from_e164;
        idempotency_key = calendar.idempotency_key call.call_id call.slot_start;
        notes = call.notes;
      } in
      let reached : book_appointment calendar configured default call (results, world)
          ≡ guarded calendar request results world =
        rw (set, book_appointment) (rw good refl) in
      let (b, deduplicated, same, kept) =
        kept_after request results world {r = r} (rw reached at done) in
      let after = (book_appointment calendar configured default call (results, world)).1 in
      let later = book_all between after in
      let still : lookup request.idempotency_key later.0 ≡ some b =
        book_all_keeps request.idempotency_key between after.0 after.1 {b = b} (rw reached kept) in
      (
        b,
        deduplicated,
        same,
        again configured' default' call' later.0 later.1 {i = i'} {start = start} {b = b} set'
            (rw same_slot good) (rw same_call (rw same_slot still)),
      )
