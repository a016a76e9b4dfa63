-- ===== src/Examples/Workers.antt =====
-- Runs about the post-call workers: the CRM, the analysis and the tasks.
use revenue_recovery_voice_a.Base.{
  ℕ, true, ◌+◌, ◌≤◌, ◌≡◌, refl, false, [], ◌∷◌, Option, none, some, String, Text, codes, text_eq,
  get_field, Json, arith, if◌then◌else◌, Bool-cases, inl, inr,
}
use revenue_recovery_voice_a.Base.Fixed.{fixed}
use revenue_recovery_voice_a.Resilience.{
  Exchange, response, background, request_with_retry, retry_loop, next_delay, should_retry,
  retryable_statuses,
}
use revenue_recovery_voice_a.Store.{Store, get_call}
use revenue_recovery_voice_a.Tools.Crm.{
  Reply, got, find_by_phone, request, found, first_contact, get_or, first_of, upsert_contact,
  hubspot_crm,
}
use revenue_recovery_voice_a.Tools.CrmRequests.{Ask, search_ask}
use revenue_recovery_voice_a.Tools.Crm.Once.{is_create, left_to_create, upsert_contact-creates_once}
use revenue_recovery_voice_a.Workers.CrmSync.{find_analysis, name_of, sync_call}
use revenue_recovery_voice_a.Workers.CrmSync.Mirror.{Mirrors, sync_call-Mirrors}
use revenue_recovery_voice_a.Workers.Analyze.{AnalysisPayload, AnalysisSettings, analyze}
use revenue_recovery_voice_a.Workers.Analyze.Scores.{IsSound, analyze-IsSound}
use revenue_recovery_voice_a.Workers.Tasks.{unknown_call, analyze_call, sync_crm}
use revenue_recovery_voice_a.Workers.Tasks.Chain.{
  syncs, analysis_after, spaces, analyze_call-chains, sync_crm_blank_name,
}
use revenue_recovery_voice_a.Examples.Data.{store, call_row, outside, accepted}

-- HubSpot, as a count of the contacts made; its searches find nobody.
abbrev hubspot : Ask → ℕ → Exchange × ℕ
hubspot ask w = (response accepted, if is_create ask then w + 1 else w)

abbrev show : Json → Text
show j = []

other : (ask : Ask) (w : ℕ) → is_create ask ≡ false → (hubspot ask w).1 ≡ w
other ask w h = rw h refl

creating : (ask : Ask) (w : ℕ) → (hubspot ask w).1 ≤ w + 1
creating ask w = elim (Bool-cases (is_create ask)) [
  | inl b ↦ rw b (omega arith)
  | inr b ↦ rw b (omega arith)
]

upsert_contact-creates_once_example :
    (upsert_contact show fixed outside hubspot background (codes "+15550199") none none 0).1
    ≤ 0
      + left_to_create
          (request show fixed outside hubspot background true (search_ask (codes "+15550199")) 0).0
upsert_contact-creates_once_example =
    upsert_contact-creates_once show fixed outside hubspot background (λ w. w) (λ w. refl)
      (λ delay w. refl) other creating (codes "+15550199") none none 0

abbrev crm_sync : String → Store × ℕ → Reply (Option Text) × (Store × ℕ)
crm_sync = sync_call (hubspot_crm show fixed outside hubspot background) "u1"

sync_call-Mirrors_example :
    Mirrors call_row store ((crm_sync "c1" (store, 0)).0, (crm_sync "c1" (store, 0)).1.0)
unfolding get_call
sync_call-Mirrors_example =
    sync_call-Mirrors (hubspot_crm show fixed outside hubspot background) "u1" "c1" call_row store 0
      refl

abbrev named : Store
named = record store {
  contacts =
      record {
        id = "u0";
        client_id = "acme";
        phone_e164 = "+15550199";
        full_name = some (spaces 2);
        crm_id = none;
        opted_out_at = none;
      }
      ∷ [];
}

searched : (find_by_phone show fixed outside hubspot background (codes "+15550199") 0).0 ≡ got none
unfolding find_by_phone request search_ask found first_contact get_or first_of get_field text_eq
    request_with_retry retry_loop next_delay should_retry retryable_statuses
searched = refl

sync_crm_blank_name_example :
    let run = sync_crm fixed outside crm_sync 0 "c1" (named, 0) in
    (run.0 ≡ unknown_call) × (run.1.0 ≡ named)
unfolding get_call name_of
sync_crm_blank_name_example =
    sync_crm_blank_name show fixed outside hubspot background "u1" "c1" call_row 1 0 none named 0
      refl refl searched

abbrev model : Text → ℕ → Exchange × ℕ
model prompt w = (response accepted, w + 1)

abbrev validate : Json → Option AnalysisPayload
validate j = none

abbrev keys : AnalysisSettings
keys = record { anthropic_api_key = "k"; anthropic_analysis_model = codes "claude" }

analyze-IsSound_example :
    IsSound (analyze validate fixed outside model keys "c1" (store, 0)).1.0.analyses
analyze-IsSound_example = analyze-IsSound validate fixed outside model keys "c1" store 0 tt

analyze_call-chains_example :
    let run =
      analyze_call fixed outside (analyze validate fixed outside model keys) 0 "c1" (store, 0) in
    (run.1.0 ≡ syncs "c1" run.0)
    × (find_analysis "c1" run.1.1.0.analyses
        ≡ analysis_after "c1" run.0 (find_analysis "c1" store.analyses))
analyze_call-chains_example = analyze_call-chains validate fixed outside model keys 0 "c1" store 0
