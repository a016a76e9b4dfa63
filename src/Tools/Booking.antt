-- ===== src/Tools/Booking.antt =====
-- `apps/api/tools/booking.py`: the booking with its guard. The calendar client, the dates and the hash
-- are parameters. The per-key lock serialises the calls of one key, so the calls are a sequence.
pub mod Idempotent
use revenue_recovery_voice_a.Base.{
  ℕ, zero, Bool, true, false, not, List, [], ◌∷◌, Option, none, some, String, Text, codes, Json,
  obj, str, bool, Fields, end, field, ℤ, pos, Dict, lookup, insert, Result, ok, err, value_error,
  if◌then◌else◌, ◌>>=◌,
}
use revenue_recovery_voice_a.Domain.State.{ToolStatus}
use revenue_recovery_voice_a.Config.{BookingConfig}
use revenue_recovery_voice_a.Tools.Registry.{ToolResult, ok_result, failure}

-- `Booking` of `apps/api/tools/calcom.py`
pub record Booking (D : Type 0) : Type 0 where
  pub uid : Text
  pub start : D
  pub status : Text

-- What `create_booking` is called with.
pub record BookingRequest (D : Type 0) : Type 0 where
  pub event_type_id : ℤ
  pub start : D
  pub attendee_name : Text
  pub attendee_phone : String
  pub idempotency_key : String
  pub notes : Option Text

-- The calendar client, the dates of the client's time zone and `idempotency_key`.
pub record Calendar (D S : Type 0) : Type 0 where
  pub idempotency_key : String → String → String
  pub fromisoformat : String → Option D
  pub isoformat : D → Text
  pub speak_slot : D → Text
  pub create_booking : BookingRequest D → S → Result (Booking D) × S

-- `DEGRADE_HINT`
abbrev pub degrade_hint : Text
degrade_hint =
    codes
      "The booking did not go through. Do not tell the caller they are booked. Say the scheduling system is lagging, offer a callback within fifteen minutes, and confirm their number."

-- `a or b` on optional ids
abbrev nonzero : Option ℤ → Option ℤ
nonzero (some (pos zero)) = none
nonzero o = o

unfoldable pub event_type : Option ℤ → Option ℤ → Option ℤ
event_type configured default = elim (nonzero configured) [
  | none ↦ nonzero default
  | some i ↦ some i
]

-- The keyword arguments of a booking.
pub record BookingCall : Type 0 where
  pub call_id : String
  pub from_e164 : String
  pub slot_start : String
  pub caller_name : Text
  pub notes : Option Text

module _ {D S : Type 0} (calendar : Calendar D S) where
  -- `_booked`
  unfoldable pub booked : Booking D → Bool → ToolResult
  booked b deduplicated = ok_result (
      some (
        obj (
          field (codes "booking_uid") (str b.uid) (
            field (codes "start") (str (calendar.isoformat b.start)) (
              field (codes "spoken") (str (calendar.speak_slot b.start)) (
                field (codes "status") (str b.status)
                  (field (codes "deduplicated") (bool deduplicated) end)))))))

  -- The critical section under `lock_for(key)`, with `_guard.results`.
  unfoldable pub guarded :
      BookingRequest D → Dict (Booking D) → S → Result ToolResult × (Dict (Booking D) × S)
  unfolding booked
  guarded request results world = elim (lookup request.idempotency_key results) [
    | some existing ↦ (ok (booked existing true), (results, world))
    | none ↦
        let (reply, world') = calendar.create_booking request world in
        elim reply [
          | err e ↦ (err e, (results, world'))
          | ok booking ↦
              (ok (booked booking false), (insert request.idempotency_key booking results, world'))
        ]
  ]

  -- `book_appointment`
  unfoldable pub book_appointment :
      Option ℤ
      → Option ℤ
      → BookingCall
      → Dict (Booking D) × S
      → Result ToolResult × (Dict (Booking D) × S)
  book_appointment configured default call (results, world) = elim (event_type configured default) [
    | none ↦ (
      failure ToolStatus.unavailable degrade_hint
          (some (obj (field (codes "reason") (str (codes "no event_type_id configured")) end))),
      (results, world),
    )
    | some event_type_id ↦ elim (calendar.fromisoformat call.slot_start) [
      | none ↦ (err value_error, (results, world))
      | some start ↦
          guarded
            (record {
              event_type_id = event_type_id;
              start = start;
              attendee_name = call.caller_name;
              attendee_phone = call.from_e164;
              idempotency_key = calendar.idempotency_key call.call_id call.slot_start;
              notes = call.notes;
            })
            results world
    ]
  ]
