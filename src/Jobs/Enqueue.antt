-- ===== src/Jobs/Enqueue.antt =====
-- src-tauri/src/catalog/jobs.rs: the check of an input, and the insertion of a job.
use life_sub.Common.{
  ℕ, Bool, true, false, not, ◌||◌, Option, none, some, List, [], ◌∷◌, String, Result, ok, err,
  if◌then◌else◌, any, str_eq,
}
use life_sub.Jobs.{
  JobState, queued, blocked_model, failed, JobSnapshot, AsrJob, Chunk, Catalog, find_job, works_on,
  have_unique_work,
}

pub data InputValidation : Type 0 where
  available missing unavailable identity_mismatch : InputValidation

pub record EnqueueJob : Type 0 where
  pub id : String
  pub session_id : String
  pub chunk_id : String
  pub provider : String
  pub model_id : String
  pub manifest_version : String
  pub archive_sha256 : String
  pub snapshot : JobSnapshot
  pub input_sha256 : String
  pub fingerprint : String
  pub available_at : ℕ
  pub created_at : ℕ

pub record EnqueueOutcome : Type 0 where
  pub job_id : String
  pub inserted : Bool

-- A row that the check of the provider, the primary key or the index on the work refuses is the database's error.
pub data EnqueueCommitError : Type 0 where
  refused_row : EnqueueCommitError
  input : InputValidation → EnqueueCommitError

unfoldable pub find_chunk : String → List Chunk → Option Chunk
find_chunk id [] = none
find_chunk id (c ∷ cs) = if str_eq c.chunk id then some c else find_chunk id cs

unfoldable pub validate_chunk : String → String → Option Chunk → InputValidation
validate_chunk session_id input_sha256 none = missing
validate_chunk session_id input_sha256 (some c) =
    if not (str_eq c.chunk_session session_id) || not (str_eq c.chunk_sha256 input_sha256)
    then identity_mismatch
    else (if not (str_eq c.integrity_state "available") then unavailable else available)

unfoldable pub validate_asr_input : String → String → String → Catalog → InputValidation
unfolding find_chunk validate_chunk
validate_asr_input session_id chunk_id input_sha256 catalog =
    validate_chunk session_id input_sha256 (find_chunk chunk_id catalog.chunks)

unfoldable pub active_asr_job_for_fingerprint : String → Catalog → Option AsrJob
active_asr_job_for_fingerprint fingerprint catalog = find_job (works_on fingerprint) catalog.jobs

unfoldable pub new_row : EnqueueJob → JobState → Option String → Option String → AsrJob
new_row job state code summary = record {
  id = job.id;
  session_id = job.session_id;
  chunk_id = job.chunk_id;
  provider = job.provider;
  model_id = job.model_id;
  manifest_version = job.manifest_version;
  archive_sha256 = job.archive_sha256;
  snapshot = job.snapshot;
  input_sha256 = job.input_sha256;
  fingerprint = job.fingerprint;
  state = state;
  attempt_count = 0;
  claim_generation = 0;
  max_attempts = 3;
  available_at = job.available_at;
  claimed_by = none;
  lease_expires_at = none;
  cancel_requested_at = none;
  error_code = code;
  error_summary = summary;
  created_at = job.created_at;
  updated_at = job.created_at;
}

abbrev pub EnqueueResult : Type 0
EnqueueResult = Result EnqueueCommitError EnqueueOutcome

-- The providers that the table takes.
unfoldable pub is_provider : String → Bool
is_provider name = str_eq name "sense_voice" || str_eq name "whisper" || str_eq name "qwen3_asr"

-- `INSERT INTO asr_jobs`, with the check of the provider, the primary key and the index.
unfoldable pub insert_row : AsrJob → Catalog → Catalog × EnqueueResult
unfolding is_provider
insert_row row catalog =
    if not (is_provider row.provider)
      || any (λ j. str_eq j.id row.id) catalog.jobs
      || not (have_unique_work (row ∷ catalog.jobs))
    then (catalog, err refused_row)
    else (
      record catalog { jobs = row ∷ catalog.jobs },
      ok (record { job_id = row.id; inserted = true }),
    )

unfoldable pub insert_asr_job :
    EnqueueJob → JobState → Option String → Option String → Catalog → Catalog × EnqueueResult
insert_asr_job job state code summary catalog =
    elim (validate_asr_input job.session_id job.chunk_id job.input_sha256 catalog) [
      | available ↦ elim (active_asr_job_for_fingerprint job.fingerprint catalog) [
        | some existing ↦ (catalog, ok (record { job_id = existing.id; inserted = false }))
        | none ↦ insert_row (new_row job state code summary) catalog
      ]
      | missing ↦ (catalog, err (input missing))
      | unavailable ↦ (catalog, err (input unavailable))
      | identity_mismatch ↦ (catalog, err (input identity_mismatch))
    ]

unfoldable pub enqueue_asr_job : EnqueueJob → Catalog → Catalog × EnqueueResult
enqueue_asr_job job = insert_asr_job job queued none none

unfoldable pub insert_blocked_asr_job :
    EnqueueJob → String → String → Catalog → Catalog × EnqueueResult
insert_blocked_asr_job job code summary =
    insert_asr_job job blocked_model (some code) (some summary)

unfoldable pub insert_failed_asr_job :
    EnqueueJob → String → String → Catalog → Catalog × EnqueueResult
insert_failed_asr_job job code summary = insert_asr_job job failed (some code) (some summary)
