-- ===== src/Jobs/Claims.antt =====
-- src-tauri/src/catalog/jobs.rs: claim, renewal, progress, failure, cancellation and retry of a job.
use life_sub.Common.{
  ℕ, suc, Bool, not, ◌&&◌, ◌||◌, Option, none, some, List, [], ◌∷◌, String, ltb, leb, ◌==◌,
  if◌then◌else◌, any, is_some_and, str_eq,
}
use mathlib.Core.Option
use life_sub.Jobs.{
  preparing, transcribing, failed, cancelled, AsrJob, Catalog, ClaimedJobRow, CancelResult,
  cancelled_at_once, cancel_is_requested, unchanged, OwnedMutationResult, updated, cancel_requested,
  ownership_lost, update_where, changed_by, find_job, is_running, is_queued, is_preparing,
  is_waiting, is_null, is_token, is_active, chunk_is_available,
}

-- The conditions that the query and the update of `claim_asr_job` share.
unfoldable pub is_claimable : Catalog → ℕ → AsrJob → Bool
is_claimable catalog now j =
    is_queued j.state
    && is_null j.cancel_requested_at
    && leb j.available_at now
    && (is_null j.lease_expires_at || is_some_and (λ t. leb t now) j.lease_expires_at)
    && chunk_is_available catalog.chunks j
    && not (any is_active catalog.jobs)

-- `ORDER BY available_at, created_at, id`; `before` compares two texts as SQLite does.
unfoldable pub comes_first : (String → String → Bool) → AsrJob → AsrJob → Bool
comes_first before a b =
    ltb a.available_at b.available_at
    || (a.available_at == b.available_at
        && (ltb a.created_at b.created_at || (a.created_at == b.created_at && before a.id b.id)))

abbrev pub sooner : (String → String → Bool) → AsrJob → Option AsrJob → AsrJob
sooner before j none = j
sooner before j (some k) = if comes_first before k j then k else j

-- The first of the rows that satisfy a condition.
unfoldable pub first_job : (String → String → Bool) → (AsrJob → Bool) → List AsrJob → Option AsrJob
first_job before p [] = none
first_job before p (j ∷ js) =
    let rest = first_job before p js in if p j then some (sooner before j rest) else rest

unfoldable pub claim_row : String → ℕ → ℕ → AsrJob → AsrJob
claim_row owner now lease j = record j {
  state = preparing;
  claimed_by = some owner;
  lease_expires_at = some lease;
  attempt_count = suc j.attempt_count;
  claim_generation = suc j.claim_generation;
  updated_at = now;
}

abbrev pub claimed_row : AsrJob → ClaimedJobRow
claimed_row j = record {
  claimed_id = j.id;
  claimed_attempt_count = j.attempt_count;
  generation = j.claim_generation;
}

-- The update leaves the row of the key there, so the last query finds it; `none` stands for no claim.
unfoldable pub claim_asr_job :
    (String → String → Bool) → String → ℕ → ℕ → Catalog → Catalog × Option ClaimedJobRow
claim_asr_job before owner now lease catalog =
    elim (first_job before (is_claimable catalog now) catalog.jobs) [
      | none ↦ (catalog, none)
      | some candidate ↦
          let selected = λ (j : AsrJob). str_eq j.id candidate.id && is_claimable catalog now j in
          let jobs = update_where selected (claim_row owner now lease) catalog.jobs in
          let claimed = find_job (λ j. str_eq j.id candidate.id) jobs in
          if changed_by selected catalog.jobs == 1
          then (record catalog { jobs = jobs }, Option.map claimed_row claimed)
          else (record catalog { jobs = jobs }, none)
    ]

-- The token names a running job that nobody has asked to cancel, whose lease has not expired.
unfoldable pub holds_lease : String → String → ℕ → ℕ → AsrJob → Bool
holds_lease id owner generation now j =
    is_token id owner generation j
    && is_running j.state
    && is_null j.cancel_requested_at
    && is_some_and (ltb now) j.lease_expires_at

unfoldable pub is_being_cancelled : String → String → ℕ → ℕ → AsrJob → Bool
is_being_cancelled id owner generation now j =
    is_token id owner generation j
    && is_running j.state
    && not (is_null j.cancel_requested_at)
    && is_some_and (ltb now) j.lease_expires_at

unfoldable pub owned_mutation_result :
    String → String → ℕ → ℕ → List AsrJob → ℕ → OwnedMutationResult
owned_mutation_result id owner generation now jobs changed =
    if changed == 1
    then updated
    else (if any (is_being_cancelled id owner generation now) jobs
        then cancel_requested
        else ownership_lost)

-- An update of the rows that the owner's token selects, with the result of the mutation.
unfoldable pub mutate_owned :
    (AsrJob → Bool)
    → (AsrJob → AsrJob)
    → String
    → String
    → ℕ
    → ℕ
    → Catalog
    → Catalog × OwnedMutationResult
mutate_owned selected f id owner generation now catalog =
    let jobs = update_where selected f catalog.jobs in
    (
      record catalog { jobs = jobs },
      owned_mutation_result id owner generation now jobs (changed_by selected catalog.jobs),
    )

unfoldable pub renew_asr_job : String → String → ℕ → ℕ → ℕ → Catalog → Catalog × OwnedMutationResult
renew_asr_job id owner generation now lease =
    mutate_owned (holds_lease id owner generation now)
      (λ j. record j { lease_expires_at = some lease; updated_at = now }) id owner generation now

unfoldable pub mark_asr_job_transcribing :
    String → String → ℕ → ℕ → Catalog → Catalog × OwnedMutationResult
mark_asr_job_transcribing id owner generation now =
    mutate_owned (λ j. holds_lease id owner generation now j && is_preparing j.state)
      (λ j. record j { state = transcribing; updated_at = now }) id owner generation now

unfoldable pub fail_asr_job :
    String → String → ℕ → ℕ → String → String → Catalog → Catalog × OwnedMutationResult
fail_asr_job id owner generation now code summary =
    mutate_owned (holds_lease id owner generation now)
      (λ j. record j {
        state = failed;
        claimed_by = none;
        lease_expires_at = none;
        error_code = some code;
        error_summary = some summary;
        updated_at = now;
      })
      id owner generation now

unfoldable pub cancel_row : ℕ → AsrJob → AsrJob
cancel_row now j = record j {
  state = cancelled;
  claimed_by = none;
  lease_expires_at = none;
  error_code = some "cancelled";
  error_summary = none;
  updated_at = now;
}

unfoldable pub request_asr_job_cancel : String → ℕ → Catalog → Catalog × CancelResult
request_asr_job_cancel id now catalog =
    let waiting = λ (j : AsrJob). str_eq j.id id && is_waiting j.state in
    let jobs =
      update_where waiting (λ j. record (cancel_row now j) { cancel_requested_at = some now })
        catalog.jobs in
    let running =
      λ (j : AsrJob). str_eq j.id id && is_running j.state && is_null j.cancel_requested_at in
    let requested =
      update_where running (λ j. record j { cancel_requested_at = some now; updated_at = now })
        jobs in
    if changed_by waiting catalog.jobs == 1
    then (record catalog { jobs = jobs }, cancelled_at_once)
    else (
      record catalog { jobs = requested },
      if changed_by running jobs == 1 then cancel_is_requested else unchanged,
    )

unfoldable pub acknowledge_asr_job_cancel : String → String → ℕ → ℕ → Catalog → Catalog × ℕ
acknowledge_asr_job_cancel id owner generation now catalog =
    let selected = is_being_cancelled id owner generation now in
    (
      record catalog { jobs = update_where selected (cancel_row now) catalog.jobs },
      changed_by selected catalog.jobs,
    )

unfoldable pub owns_running_asr_job : String → String → ℕ → Catalog → Bool
owns_running_asr_job id owner generation catalog =
    any (λ j. is_token id owner generation j && is_running j.state) catalog.jobs
