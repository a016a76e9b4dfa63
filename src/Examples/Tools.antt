-- ===== src/Examples/Tools.antt =====
-- Runs about the tools: the registry, the dispatch, the booking, the postcodes and the live feed.
use revenue_recovery_voice_a.Base.{
  ℕ, ◌≡◌, refl, Bool, true, false, List, [], ◌∷◌, ◌++◌, Option, none, some, String, Text, codes,
  pos, ℤ, obj, Fields, end, field, str, lookup, ok, if◌then◌else◌, arith, eq_iff,
}
use revenue_recovery_voice_a.Tools.Registry.{
  ToolSpec, ToolRegistry, Invocation, run_tool, merge, get,
}
use revenue_recovery_voice_a.Tools.Registry.Loop.{reply_hints, settles, first_call, second_call}
use revenue_recovery_voice_a.Tools.Registry.Attempts.{run_tool_attempts}
use revenue_recovery_voice_a.Tools.Dispatch.{dispatch_with_masking}
use revenue_recovery_voice_a.Tools.Dispatch.Order.{
  filler_line, answer_of, is_masked, IsResultOf, dispatch-answers,
}
use revenue_recovery_voice_a.Tools.Booking.{
  Booking, BookingCall, booked, book_appointment, guarded, event_type,
}
use revenue_recovery_voice_a.Tools.Booking.Idempotent.{book_all, book_once}
use revenue_recovery_voice_a.Live.{EventHub}
use revenue_recovery_voice_a.Live.Delivery.{HubOp, published, subscribed, unsubscribed}
use revenue_recovery_voice_a.Examples.Data.{slow_once, spec, function_call, calendar, booking_call}

abbrev millis : ℕ → ℕ → ℕ
millis w w' = 40

abbrev monday : Fields
monday = field (codes "day") (str (codes "mon")) end

run_tool_attempts_example :
    (inv : Invocation) × (world' : ℕ) × (run_tool spec millis end (obj monday) 0 ≡ ok (inv, world'))
    × (inv.attempts ≡ (if settles spec (merge end monday) 0 then 1 else 2))
    × (world' ≡ (
        if settles spec (merge end monday) 0
        then (first_call spec (merge end monday) 0).1
        else (second_call spec (merge end monday) 0).1))
run_tool_attempts_example = run_tool_attempts spec millis end monday 0

slow_once-hints : (kwargs : Fields) (b w : ℕ) → reply_hints (slow_once kwargs b w).0 ≡ true
slow_once-hints kwargs b ℕ.zero = refl
slow_once-hints kwargs b (ℕ.suc w) = refl

abbrev specs : ToolRegistry ℕ
specs = ("lookup", spec) ∷ []

specs-IsKeyed : (name : String) (s : ToolSpec ℕ) → lookup name specs ≡ some s → s.name ≡ name
specs-IsKeyed name s h = ground (arith, h, eq_iff name "lookup")

dispatch-answers_example :
    (inv : Invocation) × (world' : ℕ) × (dispatch_with_masking millis true function_call specs end 0
      ≡ (
        ok (inv, world'),
        filler_line millis (get function_call.name specs)
            ++ answer_of millis true function_call inv,
      ))
    × (inv.filler_played ≡ is_masked millis (get function_call.name specs))
    × IsResultOf millis (get function_call.name specs) end function_call.arguments 0 inv world'
dispatch-answers_example = dispatch-answers millis true function_call specs end monday 0 refl

abbrev other_call : BookingCall
other_call = record booking_call { slot_start = "2026-03-04T09:00" }

abbrev event : Option ℤ
event = some (pos 7)

book_once_example :
    let later =
      book_all calendar
        ((event, none, other_call) ∷ [])
        (book_appointment calendar event none booking_call ([], 0)).1 in
    (b : Booking ℕ) × (deduplicated : Bool) × (booked calendar
        (record { uid = codes "bk1"; start = 17; status = codes "accepted" })
        false
      ≡ booked calendar b deduplicated)
    × (book_appointment calendar event none booking_call later
        ≡ (ok (booked calendar b true), later))
unfolding book_appointment guarded event_type
book_once_example =
    book_once calendar event none event none booking_call booking_call
      ((event, none, other_call) ∷ []) [] 0 {i = pos 7} {i' = pos 7} {start = 17}
      {r = booked calendar (record { uid = codes "bk1"; start = 17; status = codes "accepted" })
        false}
      refl refl refl refl refl refl

abbrev spoken_address : Option Text
spoken_address = some (codes "12 Elm St, Chicago 60601-1234")

abbrev hub : EventHub
hub = record { subscribers = []; next_id = 0 }

abbrev feed : List HubOp
feed = subscribed ∷ published "c1" "tool_call" end none "t0" ∷ unsubscribed 0 ∷ []
