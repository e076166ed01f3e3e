-- ===== src/Jobs/Recovery.antt =====
-- src-tauri/src/catalog/jobs.rs: `recover_asr_jobs`. The boot that an owner's text names, and the time of
-- the next attempt, are arguments.
pub mod Rows
pub mod Loop
pub mod Keeps
use life_sub.Common.{
  ℕ, suc, Bool, true, false, not, ◌&&◌, ◌||◌, Option, none, some, List, [], ◌∷◌, String, ltb, leb,
  ◌==◌, if◌then◌else◌, is_some_and, str_eq,
}
use life_sub.Jobs.{
  JobState, queued, failed, cancelled, AsrJob, Catalog, update_where, changed_by, is_running,
  is_null, is_active,
}

pub record RecoveryCounts : Type 0 where
  pub requeued : ℕ
  pub cancelled_jobs : ℕ
  pub exhausted : ℕ

-- What the code decides for a candidate: its state, the time of the next attempt, and the error.
pub record Verdict : Type 0 where
  pub state : JobState
  pub available_at : ℕ
  pub error_code : Option String
  pub error_summary : Option String

-- The rows that the query selects, in the order of the table.
unfoldable pub candidates : List AsrJob → List AsrJob
candidates [] = []
candidates (j ∷ js) = if is_active j then j ∷ candidates js else candidates js

-- `ORDER BY created_at, id`
unfoldable pub is_before : (String → String → Bool) → AsrJob → AsrJob → Bool
is_before before a b =
    ltb a.created_at b.created_at || (a.created_at == b.created_at && before a.id b.id)

unfoldable pub insert_job : (String → String → Bool) → AsrJob → List AsrJob → List AsrJob
insert_job before j [] = j ∷ []
insert_job before j (k ∷ ks) =
    let rest = insert_job before j ks in if is_before before j k then j ∷ k ∷ ks else k ∷ rest

unfoldable pub order_jobs : (String → String → Bool) → List AsrJob → List AsrJob
order_jobs before [] = []
order_jobs before (j ∷ js) = insert_job before j (order_jobs before js)

-- `same_boot && !lease_expired`
unfoldable pub is_live : (String → Option String) → String → ℕ → AsrJob → Bool
is_live boot_of boot now j =
    is_some_and (λ owner. is_some_and (λ b. str_eq b boot) (boot_of owner)) j.claimed_by
    && is_some_and (ltb now) j.lease_expires_at

unfoldable pub verdict : ℕ → (ℕ → ℕ) → AsrJob → Verdict
verdict now retry_at j =
    if not (is_null j.cancel_requested_at)
    then record {
      state = cancelled;
      available_at = now;
      error_code = some "cancelled";
      error_summary = none;
    }
    else (if leb j.max_attempts j.attempt_count
        then record {
          state = failed;
          available_at = now;
          error_code = some "recovery_retry_exhausted";
          error_summary = some "ASR recovery claim limit exhausted";
        }
        else record {
          state = queued;
          available_at = retry_at j.attempt_count;
          error_code = none;
          error_summary = none;
        })

unfoldable pub count_verdict : AsrJob → RecoveryCounts → RecoveryCounts
count_verdict j counts =
    if not (is_null j.cancel_requested_at)
    then record counts { cancelled_jobs = suc counts.cancelled_jobs }
    else (if leb j.max_attempts j.attempt_count
        then record counts { exhausted = suc counts.exhausted }
        else record counts { requeued = suc counts.requeued })

unfoldable pub apply_verdict : ℕ → Verdict → AsrJob → AsrJob
apply_verdict now v j = record j {
  state = v.state;
  available_at = v.available_at;
  claimed_by = none;
  lease_expires_at = none;
  error_code = v.error_code;
  error_summary = v.error_summary;
  updated_at = now;
}

-- `WHERE id = ?1 AND claimed_by = ?2 AND claim_generation = ?3 AND state IN (…)`
unfoldable pub is_candidate : AsrJob → AsrJob → Bool
is_candidate c j =
    str_eq j.id c.id
    && is_some_and (λ o. is_some_and (λ owner. str_eq o owner) c.claimed_by) j.claimed_by
    && j.claim_generation == c.claim_generation
    && is_running j.state

module _ (boot_of : String → Option String) (boot : String) (now : ℕ) (retry_at : ℕ → ℕ) where
  -- The loop; `none` is the error that rolls the transaction back.
  unfoldable pub recover_loop :
      List AsrJob → RecoveryCounts → List AsrJob → Option (List AsrJob × RecoveryCounts)
  recover_loop [] counts jobs = some (jobs, counts)
  recover_loop (c ∷ cs) counts jobs = elim (is_live boot_of boot now c) [
    | true ↦ recover_loop cs counts jobs
    | false ↦ elim (changed_by (is_candidate c) jobs == 1) [
      | true ↦
          recover_loop cs (count_verdict c counts)
            (update_where (is_candidate c) (apply_verdict now (verdict now retry_at c)) jobs)
      | false ↦ none
    ]
  ]

  unfoldable pub recover_asr_jobs :
      (String → String → Bool) → Catalog → Option (Catalog × RecoveryCounts)
  recover_asr_jobs before catalog =
      elim (recover_loop (order_jobs before (candidates catalog.jobs))
        (record { requeued = 0; cancelled_jobs = 0; exhausted = 0 }) catalog.jobs) [
          | none ↦ none
          | some (jobs, counts) ↦ some (record catalog { jobs = jobs }, counts)
        ]

  -- What recovery makes of a row, seen alone.
  unfoldable pub recovered : AsrJob → AsrJob
  recovered j =
      if is_active j && not (is_live boot_of boot now j)
      then apply_verdict now (verdict now retry_at j) j
      else j
