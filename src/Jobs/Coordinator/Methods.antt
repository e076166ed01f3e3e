-- ===== src/Jobs/Coordinator/Methods.antt =====
-- src-tauri/src/asr/job.rs: the methods of JobCoordinator, and retry of JobControl.
use mathlib.Core.Option
use life_sub.Common.{
  ℕ, ◌+◌, Bool, true, false, Option, none, some, String, Result, ok, err, ltb, if◌then◌else◌,
}
use life_sub.Jobs.{
  ClaimedJobRow, ReadyModel, RetryResult, retried, invalid_transition, model_not_ready,
}
use life_sub.Jobs.Claims.{claim_asr_job, owns_running_asr_job}
use life_sub.Jobs.Recovery.{RecoveryCounts, recover_asr_jobs}
use life_sub.Jobs.Retry.{retry_asr_job}
use life_sub.Jobs.Coordinator.{
  lease_seconds, renew_seconds, seconds, ClaimToken, ClaimedJob, JobError, lost,
  cancelled_by_request, transition_refused, no_ready_model, catalog_failed, JobCoordinator, JobStep,
  clear_if_ownership_lost, retry_time, active_token, now, tick, renew, mark_transcribing,
  fail_claim, acknowledge_claim, Host, statement,
}

-- A method that fails without an active claim.
abbrev pub with_token : {A : Type 0} → JobCoordinator → (ClaimToken → JobStep A) → JobStep A
with_token s body = elim (active_token s) [ err e ↦ (s, err e) | ok token ↦ body token ]

abbrev pub drop_if_ok : {A : Type 0} → JobStep A → JobStep A
drop_if_ok (s, ok a) = (record s { active = none }, ok a)
drop_if_ok (s, err e) = (s, err e)

-- The claim is given up once the cancellation is acknowledged.
abbrev pub after_acknowledge : JobStep (Unit {0}) → JobStep (Unit {0})
after_acknowledge (s, ok _) = (s, err cancelled_by_request)
after_acknowledge (s, err e) = (s, err e)

-- `?` between two steps.
abbrev pub and_then :
    JobStep (Unit {0}) → (JobCoordinator → JobStep (Unit {0})) → JobStep (Unit {0})
and_then (s, err e) next = (s, err e)
and_then (s, ok _) next = next s

abbrev pub answer_true : JobStep (Unit {0}) → JobStep Bool
answer_true (s, err e) = (s, err e)
answer_true (s, ok _) = (s, ok true)

-- `JobControl::retry`
unfoldable pub retry_result : Option RetryResult → Result JobError ℕ
retry_result none = err catalog_failed
retry_result (some (retried generation)) = ok generation
retry_result (some invalid_transition) = err transition_refused
retry_result (some model_not_ready) = err no_ready_model

module _ (host : Host) where
  unfoldable pub acknowledge_cancel : JobCoordinator → JobStep (Unit {0})
  acknowledge_cancel s =
      with_token s (λ token. drop_if_ok (clear_if_ownership_lost (acknowledge_claim host token s)))

  unfoldable pub handle_running_result : JobStep (Unit {0}) → JobStep (Unit {0})
  handle_running_result (s, err cancelled_by_request) = after_acknowledge (acknowledge_cancel s)
  handle_running_result (s, r) = clear_if_ownership_lost (s, r)

  -- The times of the claim after a renewal.
  unfoldable pub extend : JobCoordinator → JobStep (Unit {0})
  extend s = elim s.active [
    | none ↦ (tick s, err lost)
    | some claim ↦ (
      record (tick s) {
        active = some (record claim {
          renew_at = now host s + seconds renew_seconds;
          lease_expires_at = now host s + seconds lease_seconds;
        });
      },
      ok tt,
    )
  ]

  unfoldable pub renew_active : JobCoordinator → JobStep (Unit {0})
  renew_active s =
      with_token s (λ token. and_then (handle_running_result (renew host token s)) extend)

  unfoldable pub renew_if_due : JobCoordinator → JobStep Bool
  renew_if_due s = elim s.active [
    | none ↦ (s, ok false)
    | some claim ↦
        if ltb (now host s) claim.renew_at
        then (tick s, ok false)
        else answer_true (renew_active (tick s))
  ]

  unfoldable pub enter_transcribing : JobCoordinator → JobStep (Unit {0})
  enter_transcribing s =
      and_then (renew_active s)
        (λ s'. with_token s' (λ token. handle_running_result (mark_transcribing host token s')))

  unfoldable pub finish_fail : String → String → JobCoordinator → JobStep (Unit {0})
  finish_fail code summary s =
      with_token s
        (λ token. drop_if_ok (handle_running_result (fail_claim host code summary token s)))

  unfoldable pub fail : String → String → JobCoordinator → JobStep (Unit {0})
  fail code summary s = and_then (renew_active s) (finish_fail code summary)

  module _ (before : String → String → Bool) (owner : String) where
    -- The row of a claim, with the times that follow from its reading of the clock.
    unfoldable pub claimed_job : ℕ → ClaimedJobRow → ClaimedJob
    claimed_job now r = record {
      claimed_id = r.claimed_id;
      attempt_count = r.claimed_attempt_count;
      renew_at = now + seconds renew_seconds;
      lease_expires_at = now + seconds lease_seconds;
      token = record { job_id = r.claimed_id; claimed_by = owner; claim_generation = r.generation };
    }

    unfoldable pub claim_next : JobCoordinator → JobStep (Option ClaimedJob)
    unfolding now statement claimed_job
    claim_next s = elim s.active [
      | some claim ↦ (s, ok (some claim))
      | none ↦
          let (s', r) : JobStep (Option ClaimedJob) =
            statement host
              (λ c.
                let (catalog, row) =
                  claim_asr_job before owner (now host s) (now host s + seconds lease_seconds) c in
                (catalog, ok (Option.map (claimed_job (now host s)) row)))
              (tick s) in
          elim r [ ok claim ↦ (record s' { active = claim }, ok claim) | err e ↦ (s', err e) ]
    ]

  -- The claim is given up if recovery has taken its job away, or if that cannot be read.
  unfoldable pub keep_owned : RecoveryCounts → JobCoordinator → JobStep RecoveryCounts
  unfolding statement
  keep_owned counts s = elim s.active [
    | none ↦ (s, ok counts)
    | some claim ↦
        let (s', r) : JobStep Bool =
          statement host
            (λ c. (
              c,
              ok (
                  owns_running_asr_job claim.token.job_id claim.token.claimed_by
                    claim.token.claim_generation c),
            ))
            s in
        elim r [
          | ok true ↦ (s', ok counts)
          | ok false ↦ (record s' { active = none }, ok counts)
          | err e ↦ (record s' { active = none }, err e)
        ]
  ]

  unfoldable pub recover :
      (String → String → Bool)
      → (String → Option String)
      → String
      → JobCoordinator
      → JobStep RecoveryCounts
  unfolding now statement keep_owned
  recover before boot_of boot s =
      let (s', r) : JobStep RecoveryCounts =
        statement host
          (λ c.
            elim (recover_asr_jobs boot_of boot (now host s) (retry_time (now host s)) before c) [
              | none ↦ (c, err catalog_failed)
              | some (catalog, counts) ↦ (catalog, ok counts)
            ])
          (tick s) in
      elim r [ err e ↦ (s', err e) | ok counts ↦ keep_owned counts s' ]

  unfoldable pub retry : String → ReadyModel → JobCoordinator → JobStep ℕ
  unfolding now statement retry_result
  retry id model s =
      statement host
        (λ c. let (catalog, r) = retry_asr_job id model (now host s) c in (catalog, retry_result r))
        (tick s)
