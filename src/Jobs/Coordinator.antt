-- ===== src/Jobs/Coordinator.antt =====
-- src-tauri/src/asr/job.rs: JobRepository and JobCoordinator. The clock is a sequence of readings; a time is
-- in milliseconds. The text of an owner is a function of the boot and the worker. Each statement of the catalog
-- may fail, since the process does not own the runtime or since the database fails, and then changes nothing.
pub mod Methods
pub mod Steps
pub mod Claims
use life_sub.Common.{
  ℕ, suc, ◌+◌, ◌*◌, Bool, true, false, not, Option, none, some, String, Result, ok, err, ◌>>=◌, ltb,
  leb, ◌==◌, if◌then◌else◌, List,
}
use life_sub.Jobs.{
  Catalog, ClaimedJobRow, CancelResult, OwnedMutationResult, updated, cancel_requested,
  ownership_lost, ReadyModel, RetryResult, retried, invalid_transition, model_not_ready,
}
use life_sub.Jobs.Claims.{
  claim_asr_job, renew_asr_job, mark_asr_job_transcribing, fail_asr_job, request_asr_job_cancel,
  acknowledge_asr_job_cancel, owns_running_asr_job,
}
use life_sub.Jobs.Recovery.{RecoveryCounts, recover_asr_jobs}
use life_sub.Jobs.Retry.{retry_asr_job}

abbrev pub lease_seconds : ℕ
lease_seconds = 30

abbrev pub renew_seconds : ℕ
renew_seconds = 5

-- `Duration::seconds`
abbrev pub seconds : ℕ → ℕ
seconds n = n * 1000

pub record ClaimToken : Type 0 where
  pub job_id : String
  pub claimed_by : String
  pub claim_generation : ℕ

pub record ClaimedJob : Type 0 where
  pub claimed_id : String
  pub attempt_count : ℕ
  pub renew_at : ℕ
  pub lease_expires_at : ℕ
  pub token : ClaimToken

-- The errors of the calls that are modelled.
pub data JobError : Type 0 where
  lost cancelled_by_request transition_refused no_ready_model catalog_failed not_owner : JobError

-- Why a statement is not run, or is rolled back.
pub data JobCatalogError : Type 0 where
  ownership database : JobCatalogError

unfoldable pub map_catalog_error : JobCatalogError → JobError
map_catalog_error ownership = not_owner
map_catalog_error database = catalog_failed

-- What is outside the coordinator: the readings of the clock, and what becomes of each statement.
pub record Host : Type 0 where
  pub time : ℕ → ℕ
  pub failure : ℕ → Option JobCatalogError

-- The catalog, the claim that the coordinator holds, and the numbers of readings of the clock and of statements.
pub record JobCoordinator : Type 0 where
  pub catalog : Catalog
  pub active : Option ClaimedJob
  pub readings : ℕ
  pub statements : ℕ

abbrev pub JobStep : Type 0 → Type 0
JobStep A = JobCoordinator × Result JobError A

unfoldable pub owned : ℕ → Result JobError (Unit {0})
owned changed = if changed == 1 then ok tt else err lost

unfoldable pub owned_mutation : OwnedMutationResult → Result JobError (Unit {0})
owned_mutation updated = ok tt
owned_mutation cancel_requested = err cancelled_by_request
owned_mutation ownership_lost = err lost

abbrev pub is_lost : {A : Type 0} → Result JobError A → Bool
is_lost (err lost) = true
is_lost _ = false

unfoldable pub clear_if_ownership_lost : {A : Type 0} → JobStep A → JobStep A
clear_if_ownership_lost (s, r) = if is_lost r then (record s { active = none }, r) else (s, r)

-- The time of the attempt that follows a recovery.
unfoldable pub retry_time : ℕ → ℕ → ℕ
retry_time now attempt = now + seconds (if leb attempt 1 then 5 else 30)

unfoldable pub active_token : JobCoordinator → Result JobError ClaimToken
active_token s = elim s.active [ none ↦ err lost | some claim ↦ ok claim.token ]

-- The statements by a token, at a time.
abbrev pub OwnedRun : Type 0
OwnedRun = Catalog → Catalog × Result JobError (Unit {0})

abbrev pub renewal : ClaimToken → ℕ → OwnedRun
renewal token now c =
    let (catalog, r) =
      renew_asr_job token.job_id token.claimed_by token.claim_generation now
        (now + seconds lease_seconds) c in
    (catalog, owned_mutation r)

abbrev pub entry : ClaimToken → ℕ → OwnedRun
entry token now c =
    let (catalog, r) =
      mark_asr_job_transcribing token.job_id token.claimed_by token.claim_generation now c in
    (catalog, owned_mutation r)

abbrev pub recorded_failure : String → String → ClaimToken → ℕ → OwnedRun
recorded_failure code summary token now c =
    let (catalog, r) =
      fail_asr_job token.job_id token.claimed_by token.claim_generation now code summary c in
    (catalog, owned_mutation r)

abbrev pub acknowledgement : ClaimToken → ℕ → OwnedRun
acknowledgement token now c =
    let (catalog, changed) =
      acknowledge_asr_job_cancel token.job_id token.claimed_by token.claim_generation now c in
    (catalog, owned changed)

abbrev pub tick : JobCoordinator → JobCoordinator
tick s = record s { readings = suc s.readings }

module _ (host : Host) where
  unfoldable pub now : JobCoordinator → ℕ
  now s = host.time s.readings

  -- A statement of the catalog, and its error.
  unfoldable pub statement :
      {A : Type 0} → (Catalog → Catalog × Result JobError A) → JobCoordinator → JobStep A
  unfolding map_catalog_error
  statement run s =
      let counted = record s { statements = suc s.statements } in
      elim (host.failure s.statements) [
        | some e ↦ (counted, err (map_catalog_error e))
        | none ↦ let (catalog, r) = run s.catalog in (record counted { catalog = catalog }, r)
      ]

  -- `JobRepository::renew`, and the other statements by a token.
  unfoldable pub renew : ClaimToken → JobCoordinator → JobStep (Unit {0})
  unfolding now statement
  renew token s = statement (renewal token (now s)) (tick s)

  unfoldable pub mark_transcribing : ClaimToken → JobCoordinator → JobStep (Unit {0})
  unfolding now statement
  mark_transcribing token s = statement (entry token (now s)) (tick s)

  unfoldable pub fail_claim : String → String → ClaimToken → JobCoordinator → JobStep (Unit {0})
  unfolding now statement
  fail_claim code summary token s = statement (recorded_failure code summary token (now s)) (tick s)

  unfoldable pub acknowledge_claim : ClaimToken → JobCoordinator → JobStep (Unit {0})
  unfolding now statement
  acknowledge_claim token s = statement (acknowledgement token (now s)) (tick s)
