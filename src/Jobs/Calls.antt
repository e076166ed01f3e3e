-- ===== src/Jobs/Calls.antt =====
-- src-tauri/src/catalog/jobs.rs: sequences of statements on the table of jobs, and the owner of a token.
use life_sub.Common.{
  Option, some, none, ℕ, ◌≡◌, refl, inl, inr, Bool, true, false, ◌&&◌, List, [], ◌∷◌, String, ◌==◌,
  any, str_eq, arith, Bool-cases, Option-cases,
}
use life_sub.Jobs.{
  JobState, is_unfinished, have_unique_work, AsrJob, Catalog, ownership_lost, update_where,
  changed_by, is_running, find_job, is_retryable, ReadyModel, is_token, is_active, is_waiting,
}
use life_sub.Jobs.Claims.{
  is_claimable, first_job, claim_row, claim_asr_job, holds_lease, is_being_cancelled,
  owned_mutation_result, mutate_owned, renew_asr_job, mark_asr_job_transcribing, fail_asr_job,
  cancel_row, request_asr_job_cancel, acknowledge_asr_job_cancel, owns_running_asr_job,
}
use life_sub.Jobs.Retry.{can_retry, retry_row, retry_from, retry_asr_job}
use life_sub.Jobs.Recovery.{recover_asr_jobs}
use life_sub.Jobs.Recovery.Keeps.{recover-IsValid}
use life_sub.Jobs.Enqueue.{EnqueueJob, insert_asr_job}
use life_sub.Jobs.Inserted.{insert-IsValid}
use life_sub.Jobs.Running.{
  count-update, update-work, not_selected, IsValid, update-IsValid, update-HaveUniqueIds,
  one_active,
}

-- A statement with its arguments: the ids, the owner, the generation, the clock and the lease.
pub data Statement : Type 0 where
  claim : String → ℕ → ℕ → Statement
  renew : String → String → ℕ → ℕ → ℕ → Statement
  mark_transcribing : String → String → ℕ → ℕ → Statement
  fail : String → String → ℕ → ℕ → String → String → Statement
  request_cancel : String → ℕ → Statement
  retry : String → ReadyModel → ℕ → Statement
  recover : (String → Option String) → String → ℕ → (ℕ → ℕ) → Statement
  insert : EnqueueJob → JobState → Option String → Option String → Statement
  acknowledge_cancel : String → String → ℕ → ℕ → Statement

-- A transaction that fails is rolled back.
abbrev or_unchanged : {A : Type 0} → Catalog → Option (Catalog × A) → Catalog
or_unchanged c none = c
or_unchanged c (some (d, _)) = d

module _ (before : String → String → Bool) where
  unfoldable pub execute : Statement → Catalog → Catalog
  execute (claim owner now lease) c = (claim_asr_job before owner now lease c).0
  execute (renew id owner generation now lease) c =
      (renew_asr_job id owner generation now lease c).0
  execute (mark_transcribing id owner generation now) c =
      (mark_asr_job_transcribing id owner generation now c).0
  execute (fail id owner generation now code summary) c =
      (fail_asr_job id owner generation now code summary c).0
  execute (request_cancel id now) c = (request_asr_job_cancel id now c).0
  execute (retry id model now) c = (retry_asr_job id model now c).0
  execute (recover boot_of boot now retry_at) c =
      or_unchanged c (recover_asr_jobs boot_of boot now retry_at before c)
  execute (insert job state code summary) c = (insert_asr_job job state code summary c).0
  execute (acknowledge_cancel id owner generation now) c =
      (acknowledge_asr_job_cancel id owner generation now c).0

  unfoldable pub execute_all : List Statement → Catalog → Catalog
  execute_all [] c = c
  execute_all (s ∷ ss) c = execute_all ss (execute s c)

  pub first_job-selected :
      (p : AsrJob → Bool) (js : List AsrJob) (k : AsrJob)
      → first_job before p js ≡ some k
      → p k ≡ true
  unfolding first_job
  first_job-selected p [] k h = cc
  first_job-selected p (j ∷ js) k h = elim (Option-cases (first_job before p js)) [
    | inl e ↦ ground arith
    | inr (m, e) ↦ ground (arith, first_job-selected p js m e)
  ]

  pub claimable-alone :
      (c : Catalog) (now : ℕ) (j : AsrJob)
      → is_claimable c now j ≡ true
      → any is_active c.jobs ≡ false
  unfolding is_claimable
  claimable-alone c now j h = ground arith

  claimable-unfinished :
      (c : Catalog) (now : ℕ) (j : AsrJob)
      → is_claimable c now j ≡ true
      → is_unfinished j.state ≡ true
  unfolding is_claimable
  claimable-unfinished c now j h = ground arith

  claim-IsValid :
      (owner : String) (now lease : ℕ) (c : Catalog)
      → IsValid c
      → IsValid ((claim_asr_job before owner now lease c).0)
  unfolding claim_asr_job claim_row
  claim-IsValid owner now lease c v =
      elim (Option-cases (first_job before (is_claimable c now) c.jobs)) [
        | inl e ↦ rw (e, claim_asr_job) v
        | inr (k, e) ↦
            let alone =
              claimable-alone c now k (first_job-selected (is_claimable c now) c.jobs k e) in
            let after : IsValid (record c {
              jobs =
                  update_where (λ j. str_eq j.id k.id && is_claimable c now j)
                    (claim_row owner now lease) c.jobs;
            }) =
              record {
                unique_work =
                    update-work _ _ c.jobs
                      (λ j h. (refl, λ _. claimable-unfinished c now j (ground arith)))
                      v.unique_work;
                unique_ids = update-HaveUniqueIds _ _ c.jobs (λ j. refl) v.unique_ids;
                one_running = one_active k.id _ _ c.jobs (λ j h. ground arith) v.unique_ids alone;
              } in
            elim (Bool-cases
              (changed_by (λ j. str_eq j.id k.id && is_claimable c now j) c.jobs == 1)) [
                | inl one ↦ rw (e, claim_asr_job, one) after
                | inr other ↦ rw (e, claim_asr_job, other) after
              ]
      ]

  request-IsValid :
      (id : String) (now : ℕ) (c : Catalog)
      → IsValid c
      → IsValid ((request_asr_job_cancel id now c).0)
  unfolding request_asr_job_cancel cancel_row is_active
  request-IsValid id now c v =
      let first =
        update-IsValid (λ j. str_eq j.id id && is_waiting j.state)
          (λ j. record (cancel_row now j) { cancel_requested_at = some now }) c (λ j. refl)
          (λ j h k. ground arith) (λ j h. (refl, λ k. ground arith)) v in
      elim (Bool-cases (changed_by (λ j. str_eq j.id id && is_waiting j.state) c.jobs == 1)) [
        | inl one ↦ rw one first
        | inr other ↦ rw other (
            update-IsValid _ (λ j. record j { cancel_requested_at = some now; updated_at = now }) _
              (λ j. refl) (λ j h k. k) (λ j h. (refl, λ k. k)) first)
      ]

  retry_from-IsValid :
      (id : String) (model : ReadyModel) (now : ℕ) (state : JobState) (c : Catalog)
      → IsValid c
      → IsValid ((retry_from id model now state c).0)
  unfolding retry_from retry_row is_active
  retry_from-IsValid id model now state c v =
      elim (Bool-cases
        (have_unique_work (update_where (can_retry id model state c) (retry_row now) c.jobs))) [
          | inl e ↦
              rw (e, retry_from)
                (record {
                  unique_ids =
                      update-HaveUniqueIds (can_retry id model state c) (retry_row now) c.jobs
                        (λ j. refl) v.unique_ids;
                  one_running = omega (
                    arith,
                    count-update (can_retry id model state c) (retry_row now) c.jobs
                        (λ j h k. ground arith),
                    v.one_running,
                  );
                  unique_work = e;
                })
          | inr e ↦ rw (e, retry_from) v
        ]

  retry-IsValid :
      (id : String) (model : ReadyModel) (now : ℕ) (c : Catalog)
      → IsValid c
      → IsValid ((retry_asr_job id model now c).0)
  unfolding retry_asr_job
  retry-IsValid id model now c v = elim (Option-cases (find_job (λ j. str_eq j.id id) c.jobs)) [
    | inl e ↦ rw (e, retry_asr_job) v
    | inr (k, e) ↦ elim (Bool-cases (is_retryable k.state)) [
      | inl r ↦ rw (e, retry_asr_job, r) (retry_from-IsValid id model now k.state c v)
      | inr r ↦ rw (e, retry_asr_job, r) v
    ]
  ]

  execute-IsValid : (s : Statement) (c : Catalog) → IsValid c → IsValid (execute s c)
  unfolding execute renew_asr_job mark_asr_job_transcribing fail_asr_job acknowledge_asr_job_cancel
      mutate_owned cancel_row is_active holds_lease is_being_cancelled is_token
  execute-IsValid (claim owner now lease) c v = claim-IsValid owner now lease c v
  execute-IsValid (renew id owner generation now lease) c v =
      update-IsValid _ _ c (λ j. refl) (λ j h k. k) (λ j h. (refl, λ k. ground arith)) v
  execute-IsValid (mark_transcribing id owner generation now) c v =
      update-IsValid _ _ c (λ j. refl) (λ j h k. ground arith) (λ j h. (refl, λ k. ground arith)) v
  execute-IsValid (fail id owner generation now code summary) c v =
      update-IsValid _ _ c (λ j. refl) (λ j h k. ground arith) (λ j h. (refl, λ k. ground arith)) v
  execute-IsValid (request_cancel id now) c v = request-IsValid id now c v
  execute-IsValid (retry id model now) c v = retry-IsValid id model now c v
  execute-IsValid (recover boot_of boot now retry_at) c v =
      elim (Option-cases (recover_asr_jobs boot_of boot now retry_at before c)) [
        | inl e ↦ rw e v
        | inr ((d, counts), e) ↦
            rw e (recover-IsValid boot_of boot now retry_at before c d counts v e)
      ]
  execute-IsValid (insert job state code summary) c v = insert-IsValid job state code summary c v
  execute-IsValid (acknowledge_cancel id owner generation now) c v =
      update-IsValid _ _ c (λ j. refl) (λ j h k. ground arith) (λ j h. (refl, λ k. ground arith)) v

-- Whatever the order in which SQLite sorts texts, no sequence of claims, renewals, marks, failures, requests
-- to cancel, acknowledgements, retries, recoveries and insertions gives a second running job an owner, two
-- jobs one key, or two unfinished jobs one fingerprint, from a catalog where there are none such.
pub execute_all-IsValid :
    (before : String → String → Bool) (statements : List Statement) (c : Catalog)
    → IsValid c
    → IsValid (execute_all before statements c)
unfolding execute_all
execute_all-IsValid before [] c v = v
execute_all-IsValid before (s ∷ ss) c v =
    execute_all-IsValid before ss (execute before s c) (execute-IsValid before s c v)

mutate_stale :
    (p q : AsrJob → Bool) (f : AsrJob → AsrJob) (id owner : String) (generation now : ℕ)
    (c : Catalog)
    → ((j : AsrJob) → p j ≡ true → q j ≡ true)
    → ((j : AsrJob) → is_being_cancelled id owner generation now j ≡ true → q j ≡ true)
    → any q c.jobs ≡ false
    → mutate_owned p f id owner generation now c ≡ (c, ownership_lost)
unfolding mutate_owned owned_mutation_result
mutate_stale p q f id owner generation now c sub sub' h =
    let (same, none_changed, _) = not_selected p q f c.jobs sub h in
    let (_, _, absent) =
      not_selected (is_being_cancelled id owner generation now) q f c.jobs sub' h in
    rw (same, none_changed, absent) refl

the_token :
    (id owner : String) (generation now : ℕ) (j : AsrJob)
    → is_being_cancelled id owner generation now j ≡ true
    → (is_token id owner generation j && is_running j.state) ≡ true
unfolding is_being_cancelled
the_token id owner generation now j h = ground arith

-- An owner whose token does not name a running job is told that the ownership is lost by renewal, by the mark
-- and by failure, and none of them, nor the acknowledgement of a cancellation, changes the catalog.
pub stale_owner_refused :
    (id owner code summary : String) (generation now lease : ℕ) (c : Catalog)
    → owns_running_asr_job id owner generation c ≡ false
    → (renew_asr_job id owner generation now lease c ≡ (c, ownership_lost))
      × (mark_asr_job_transcribing id owner generation now c ≡ (c, ownership_lost))
      × (fail_asr_job id owner generation now code summary c ≡ (c, ownership_lost))
      × (acknowledge_asr_job_cancel id owner generation now c ≡ (c, 0))
unfolding owns_running_asr_job renew_asr_job mark_asr_job_transcribing fail_asr_job
    acknowledge_asr_job_cancel holds_lease is_being_cancelled
stale_owner_refused id owner code summary generation now lease c stale =
    let q = λ (j : AsrJob). is_token id owner generation j && is_running j.state in
    let sub = λ (j : AsrJob) (h : is_being_cancelled id owner generation now j ≡ true).
      the_token id owner generation now j h in
    let (same, none_changed, _) =
      not_selected (is_being_cancelled id owner generation now) q (cancel_row now) c.jobs sub
        stale in
    (
      mutate_stale _ q _ id owner generation now c (λ j h. ground arith) sub stale,
      mutate_stale _ q _ id owner generation now c (λ j h. ground arith) sub stale,
      mutate_stale _ q _ id owner generation now c (λ j h. ground arith) sub stale,
      rw (same, none_changed) refl,
    )
