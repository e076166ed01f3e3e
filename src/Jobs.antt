-- ===== src/Jobs.antt =====
-- src-tauri/src/catalog/jobs.rs: the rows of `asr_jobs` and the statements that change them. A table is the
-- list of its rows with the columns that the statements read or write; a failing database is not part of
-- the model. A time is its place in the order of the canonical texts, which the statements compare.
pub mod Claims
pub mod Retry
pub mod Recovery
pub mod Enqueue
pub mod Running
pub mod Inserted
pub mod Calls
pub mod Fresh
pub mod Coordinator
mod Tests
use life_sub.Common.{
  ℕ, suc, ◌+◌, Bool, true, false, not, ◌&&◌, ◌||◌, Option, none, some, List, [], ◌∷◌, String, ltb,
  leb, ◌==◌, if◌then◌else◌, any, is_some_and, str_eq,
}

pub data JobState : Type 0 where
  queued blocked_model preparing transcribing succeeded failed cancelled : JobState

-- The texts that a job takes from its model, its detector and its parameters.
pub record JobSnapshot : Type 0 where
  pub required_file_hashes_json : String
  pub model_source_json : String
  pub vad_model_id : Option String
  pub vad_manifest_version : Option String
  pub vad_archive_sha256 : Option String
  pub vad_required_file_hashes_json : Option String
  pub parameters_json : String

pub record AsrJob : Type 0 where
  pub id : String
  pub session_id : String
  pub chunk_id : String
  pub provider : String
  pub model_id : String
  pub manifest_version : String
  pub archive_sha256 : String
  pub snapshot : JobSnapshot
  pub input_sha256 : String
  pub fingerprint : String
  pub state : JobState
  pub attempt_count : ℕ
  pub claim_generation : ℕ
  pub max_attempts : ℕ
  pub available_at : ℕ
  pub claimed_by : Option String
  pub lease_expires_at : Option ℕ
  pub cancel_requested_at : Option ℕ
  pub error_code : Option String
  pub error_summary : Option String
  pub created_at : ℕ
  pub updated_at : ℕ

pub record Chunk : Type 0 where
  pub chunk : String
  pub chunk_session : String
  pub chunk_sha256 : String
  pub integrity_state : String

-- A row of `model_installations`.
pub record Installation : Type 0 where
  pub installed_provider : String
  pub installed_model : String
  pub installed_version : String
  pub installed_sha256 : String
  pub installed_state : String
  pub runtime_identity : Option String

pub record Catalog : Type 0 where
  pub jobs : List AsrJob
  pub chunks : List Chunk
  pub installations : List Installation

pub record ClaimedJobRow : Type 0 where
  pub claimed_id : String
  pub claimed_attempt_count : ℕ
  pub generation : ℕ

pub data CancelResult : Type 0 where
  cancelled_at_once cancel_is_requested unchanged : CancelResult

pub data OwnedMutationResult : Type 0 where
  updated cancel_requested ownership_lost : OwnedMutationResult

pub data RetryResult : Type 0 where
  retried : ℕ → RetryResult
  invalid_transition model_not_ready : RetryResult

pub record ReadyModel : Type 0 where
  pub provider : String
  pub model_id : String
  pub manifest_version : String
  pub bundle_identity : String
  pub runtime_identity_json : String

-- `UPDATE asr_jobs SET … WHERE …`, and the number of rows that it changes.
unfoldable pub update_where : (AsrJob → Bool) → (AsrJob → AsrJob) → List AsrJob → List AsrJob
update_where p f [] = []
update_where p f (j ∷ js) = (if p j then f j else j) ∷ update_where p f js

unfoldable pub changed_by : (AsrJob → Bool) → List AsrJob → ℕ
changed_by p [] = 0
changed_by p (j ∷ js) = if p j then suc (changed_by p js) else changed_by p js

-- `SELECT … WHERE … LIMIT 1` without an order.
unfoldable pub find_job : (AsrJob → Bool) → List AsrJob → Option AsrJob
find_job p [] = none
find_job p (j ∷ js) = if p j then some j else find_job p js

abbrev pub is_running : JobState → Bool
is_running preparing = true
is_running transcribing = true
is_running _ = false

abbrev pub is_queued : JobState → Bool
is_queued queued = true
is_queued _ = false

abbrev pub is_preparing : JobState → Bool
is_preparing preparing = true
is_preparing _ = false

abbrev pub is_waiting : JobState → Bool
is_waiting queued = true
is_waiting blocked_model = true
is_waiting _ = false

abbrev pub is_retryable : JobState → Bool
is_retryable blocked_model = true
is_retryable failed = true
is_retryable _ = false

abbrev pub is_null : {A : Type 0} → Option A → Bool
is_null none = true
is_null (some a) = false

-- `id = ?1 AND claimed_by = ?2 AND claim_generation = ?3`
unfoldable pub is_token : String → String → ℕ → AsrJob → Bool
is_token id owner generation j =
    str_eq j.id id
    && is_some_and (λ o. str_eq o owner) j.claimed_by
    && j.claim_generation == generation

-- A job that holds the one place for a running job.
unfoldable pub is_active : AsrJob → Bool
is_active j = is_running j.state && not (is_null j.claimed_by)

unfoldable pub chunk_is_available : List Chunk → AsrJob → Bool
chunk_is_available chunks j =
    any (λ c. str_eq c.chunk j.chunk_id && str_eq c.integrity_state "available") chunks

-- `state IN ('queued', 'blocked_model', 'preparing', 'transcribing')`
abbrev pub is_unfinished : JobState → Bool
is_unfinished s = is_waiting s || is_running s

unfoldable pub works_on : String → AsrJob → Bool
works_on fingerprint j = str_eq j.fingerprint fingerprint && is_unfinished j.state

-- The index `asr_jobs_one_active_fingerprint` admits the rows.
unfoldable pub have_unique_work : List AsrJob → Bool
have_unique_work [] = true
have_unique_work (j ∷ js) =
    not (is_unfinished j.state && any (works_on j.fingerprint) js) && have_unique_work js
