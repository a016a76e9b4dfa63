-- ===== src/Lib.antt =====
-- The deterministic core of the revenue recovery voice agent, a phone agent that answers missed calls
-- of a business, qualifies the caller, books appointments and escalates to a person.
--
-- A call reaches the media plane (`apps/api/media/`), which moves audio between Twilio and the realtime
-- model. The playback ledger counts what the caller has heard, the barge-in controller cuts the agent
-- off when the caller speaks, and the budget guard ends calls that run too long or cost too much. The
-- model's function calls go through `apps/api/tools/dispatch.py` to the registry, which runs handlers
-- under budgets. The domain rules (`apps/api/domain/`) decide on opening hours, escalation and
-- qualification from a client's configuration (`apps/api/config/`). What happened is written by
-- `apps/api/db/repository.py`; inbound calls, text messages and callbacks are `apps/api/telephony/`.
-- After a call the workers (`apps/api/workers/`) have it analysed and mirror it into the CRM, and
-- `apps/api/observability/metrics.py` decides whether the calls meet their latency gate. All outbound
-- requests share the retries of `apps/api/resilience.py`.
--
-- Files, and the code that they model:
--   Base                shared names: tests, lists, dicts in insertion order, integers, text as code
--                       points, `Strings` on digits, `Sorting` on `sorted`, Python exceptions as
--                       values, JSON, an interface of floats (`Floats`)
--                       and a fixed-point instance of it for test runs (`Fixed`)
--   Config              `config/schema.py`: `Schema` the records, `Valid` the validators;
--                       `config/loader.py`: `Loader`, with `Loader/Routing` on its two indexes
--   Domain/State        `domain/state.py`: `record_tool`, `record_sentiment`
--   Domain/Hours        `domain/hours.py`: `next_open`, `dispatch_decision`, `applies_emergency_fee`
--   Domain/Escalation   `domain/escalation.py`: `should_escalate`
--   Domain/Qualification `domain/qualification.py`: `qualify`
--   Media/Ledger        `media/playback_ledger.py`: the class `PlaybackLedger`
--   Media/BargeIn       `media/barge_in.py`: `on_speech_started`
--   Media/Outbound      `media/bridge.py`: the bounded queue of audio for the caller and its pump,
--                       with the cuts of `media/barge_in.py` step by step; `Steps` lets them interleave
--                       with marks and new items; `Base64` on the size of a chunk
--   Media/Realtime      `media/realtime_client.py`: the messages and the readers of events
--   Media/Bridge        `media/bridge.py`: the state of `MediaBridge`; `Turns` has transcripts,
--                       escalation and tool calls, `Events` both pumps, `aclose` and `run`
--   Media/Budget        `media/budget_guard.py` and `_watch_budget` of `media/bridge.py`
--   Tools/Registry      `tools/registry.py`: `ToolRegistry`, `run_tool`
--   Tools/Dispatch      `tools/dispatch.py`: `FunctionCall`, `dispatch_with_masking`
--   Tools/Booking       `tools/booking.py`: `book_appointment` with its guard
--   Tools/Payment       `tools/payment.py`: `create_payment_link`, `send_payment_link`;
--                       `Tools/PaymentTexts` has its key, and `mask_e164` of `security/redaction.py`
--   Tools/Crm           `tools/crm.py`: the port, the HubSpot adapter and the one without a CRM;
--                       `Tools/CrmRequests` has its requests and `_split_name`
--   Tools/Transfer      `tools/transfer.py`: `transfer_to_human`
--   Tools/ServiceArea   `tools/service_area.py`: `extract_postcode`, `check_service_area`
--   Security/Redaction  `security/redaction.py`: `redact_structure`, over any redaction of texts
--   Resilience          `resilience.py`: `request_with_retry`, its blocking twin and the delays
--   Store               `db/models.py` in `Tables`; `db/repository.py` in `Calls` and `Messages`;
--                       `Writes` makes every write a value, so that any sequence of them can be meant
--   Telephony           `telephony/sms.py`, `telephony/status_webhook.py`, `telephony/recording.py`,
--                       `telephony/twiml.py`, with `Xml` on the escapes that it uses and their reading
--   Workers             `workers/recording.py`, `workers/analyze.py`, `workers/crm_sync.py`, and the
--                       tasks around them in `workers/tasks.py`
--   Metrics             `observability/metrics.py`: percentiles, tool statistics, the latency gate
--   Live                `observability/live.py`: the event hub
--   Examples            runs of the theorems at concrete inputs
-- All paths are below `apps/api/`.
--
-- How code becomes definitions. A method that changes an object is a function from the state before
-- to the state after; an exception is `err`. What is not in the repository acts on a type `S` of
-- the outside world and is a parameter: tool handlers, the HTTP client, clocks, random draws, the
-- zone database, the YAML and JSON readers, pydantic's reading of a payload, the HMAC, the Cal.com
-- client. An `await` is a step of a sequence; messages are lists in the order in which they are
-- sent. A table is a list of rows, `ON CONFLICT` looks for the row with the key, and a statement
-- that raises leaves the store as it was. Microseconds, bytes and counters are unbounded integers,
-- as in Python. Floats are an interface with an order, monotone operations and exactness on
-- integers below 2^53; NaN is not among its values. Lower-casing and the letters of regular
-- expressions are those of ASCII, the digits apart, which are those of Unicode (`Base/Digits`).
--
-- The bridge lists what it sends and what it calls on its hooks in one sequence of outputs; hooks and
-- sockets do not raise there, and a socket that fails ends the sequence of messages of its pump. Each
-- pump handles a message to its end before the next; the queue of audio is modelled one level down,
-- where a pump that waits on a send interleaves with all else.
--
-- Bounds and fuel. `next_open` makes `horizon_days + 1` rounds and the retry loop `policy.attempts`,
-- as the code does; the theorems on them say what the last round returns. `_check_escalation` and
-- `_dispatch` call each other: the escalation is recorded before the transfer is dispatched, so two
-- levels are enough (`escalation_depth`), and more of them change nothing. No other loop has a bound
-- that the code does not have.
--
-- Not modelled: `media/gateway.py`, the sockets of `media/realtime_client.py`, the patterns of
-- `redact_pan` and `redact_phone`, availability and knowledge search; routers, settings,
-- migrations, logging and the web application, which are glue and I/O.
pub mod Base
pub mod Config
pub mod Domain
pub mod Examples
pub mod Live
pub mod Metrics
pub mod Media
pub mod Telephony
pub mod Tools
pub mod Workers
pub mod Store
pub mod Security
pub mod Resilience
