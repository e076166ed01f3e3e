-- ===== src/Jobs/Retry.antt =====
-- src-tauri/src/catalog/jobs.rs: retry of a job whose model is installed and qualified.
use life_sub.Common.{
  ℕ, suc, Bool, true, false, not, ◌&&◌, Option, none, some, String, ◌==◌, if◌then◌else◌, any,
  is_some_and, str_eq,
}
use life_sub.Jobs.{
  JobState, queued, blocked_model, failed, AsrJob, Installation, Catalog, RetryResult, retried,
  invalid_transition, model_not_ready, ReadyModel, update_where, have_unique_work, changed_by,
  find_job, is_retryable, chunk_is_available,
}

-- `state = ?8`, for the two states that a retry starts from.
abbrev pub is_in_state : JobState → JobState → Bool
is_in_state blocked_model blocked_model = true
is_in_state failed failed = true
is_in_state _ _ = false

unfoldable pub is_qualified : ReadyModel → Installation → Bool
is_qualified model m =
    str_eq m.installed_provider model.provider
    && str_eq m.installed_model model.model_id
    && str_eq m.installed_version model.manifest_version
    && str_eq m.installed_sha256 model.bundle_identity
    && str_eq m.installed_state "runtime_qualified"
    && is_some_and (λ r. str_eq r model.runtime_identity_json) m.runtime_identity

unfoldable pub can_retry : String → ReadyModel → JobState → Catalog → AsrJob → Bool
can_retry id model state catalog j =
    str_eq j.id id
    && is_in_state state j.state
    && str_eq j.provider model.provider
    && str_eq j.model_id model.model_id
    && str_eq j.manifest_version model.manifest_version
    && str_eq j.archive_sha256 model.bundle_identity
    && chunk_is_available catalog.chunks j
    && any (is_qualified model) catalog.installations

unfoldable pub retry_row : ℕ → AsrJob → AsrJob
retry_row now j = record j {
  state = queued;
  attempt_count = 0;
  claim_generation = suc j.claim_generation;
  available_at = now;
  claimed_by = none;
  lease_expires_at = none;
  cancel_requested_at = none;
  error_code = none;
  error_summary = none;
  updated_at = now;
}

abbrev retried_row : Option AsrJob → Option RetryResult
retried_row none = none
retried_row (some j) = some (retried j.claim_generation)

-- The update and the result, once the state is read. `none` is an error, which rolls the transaction back:
-- a row that the index on the work refuses, or a query that finds no row.
unfoldable pub retry_from :
    String → ReadyModel → ℕ → JobState → Catalog → Catalog × Option RetryResult
retry_from id model now state catalog =
    let selected = can_retry id model state catalog in
    let jobs = update_where selected (retry_row now) catalog.jobs in
    if not (have_unique_work jobs) then (catalog, none) else (
      record catalog { jobs = jobs },
      if changed_by selected catalog.jobs == 1
          then retried_row (find_job (λ j. str_eq j.id id) jobs)
          else some model_not_ready,
    )

unfoldable pub retry_asr_job : String → ReadyModel → ℕ → Catalog → Catalog × Option RetryResult
retry_asr_job id model now catalog = elim (find_job (λ j. str_eq j.id id) catalog.jobs) [
  | none ↦ (catalog, some invalid_transition)
  | some j ↦
      if is_retryable j.state
      then retry_from id model now j.state catalog
      else (catalog, some invalid_transition)
]
