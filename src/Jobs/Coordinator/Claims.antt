-- ===== src/Jobs/Coordinator/Claims.antt =====
-- src-tauri/src/asr/job.rs: what the coordinator's methods do to its claim.
use life_sub.Common.{
  ℕ, ◌≡◌, refl, sym, ◌∙◌, inl, inr, Option, none, some, String, Result, ok, err, arith, Bool-cases,
  Option-cases, ltb,
}
use life_sub.Jobs.{Catalog}
use life_sub.Jobs.Claims.{acknowledge_asr_job_cancel}
use life_sub.Jobs.Coordinator.{
  ClaimToken, ClaimedJob, JobError, lost, cancelled_by_request, transition_refused, no_ready_model,
  catalog_failed, not_owner, JobCatalogError, ownership, database, map_catalog_error, Host,
  JobCoordinator, JobStep, owned, active_token, now, tick, statement, renewal, entry,
  recorded_failure, acknowledgement, renew, mark_transcribing, fail_claim, acknowledge_claim,
}
use life_sub.Jobs.Coordinator.Methods.{
  acknowledge_cancel, handle_running_result, extend, renew_active, renew_if_due, enter_transcribing,
  finish_fail, fail,
}
use life_sub.Jobs.Coordinator.Steps.{
  KeepsOrDrops, EndsOrKeeps, same_token, chained_end, acknowledged, and_then-KeepsOrDrops,
  and_then-EndsOrKeeps, with_token-KeepsOrDrops, with_token-EndsOrKeeps, dropped, answered, cleared,
}

module _ (host : Host) where
  statement-active :
      {A : Type 0} (run : Catalog → Catalog × Result JobError A) (s : JobCoordinator)
      → (statement host run s).0.active ≡ s.active
  unfolding statement
  statement-active run s = elim (Option-cases (host.failure s.statements)) [
    | inl e ↦ rw (e, statement) refl
    | inr (x, e) ↦ rw (e, statement) refl
  ]

  abbrev IsCancelled : Result JobError (Unit {0}) → Type 0
  IsCancelled r = r ≡ err cancelled_by_request

  statement_failure : (x : JobCatalogError) → IsCancelled (err (map_catalog_error x)) → ⊥
  unfolding map_catalog_error
  statement_failure ownership h = cc
  statement_failure database h = cc

  statement-not_cancelled :
      (run : Catalog → Catalog × Result JobError (Unit {0})) (s : JobCoordinator)
      → (IsCancelled ((run s.catalog).1) → ⊥)
      → IsCancelled ((statement host run s).1)
      → ⊥
  unfolding statement
  statement-not_cancelled run s h answer = elim (Option-cases (host.failure s.statements)) [
    | inl e ↦
        let ran : (statement host run s).1 ≡ (run s.catalog).1 = rw (e, statement) refl in
        h (sym ran ∙ answer)
    | inr (x, e) ↦
        let refused : (statement host run s).1 ≡ err (map_catalog_error x) =
          rw (e, statement) refl in
        statement_failure x (sym refused ∙ answer)
  ]

  owned-not_cancelled : (n : ℕ) → IsCancelled (owned n) → ⊥
  unfolding owned
  owned-not_cancelled n h = ground arith

  acknowledge_claim-active :
      (token : ClaimToken) (s : JobCoordinator)
      → (acknowledge_claim host token s).0.active ≡ s.active
  unfolding acknowledge_claim
  acknowledge_claim-active token s = statement-active (acknowledgement token (now host s)) (tick s)

  acknowledge_claim-not_cancelled :
      (token : ClaimToken) (s : JobCoordinator)
      → IsCancelled ((acknowledge_claim host token s).1)
      → ⊥
  unfolding acknowledge_claim
  acknowledge_claim-not_cancelled token s =
      statement-not_cancelled (acknowledgement token (now host s)) (tick s) (
        owned-not_cancelled (
          (acknowledge_asr_job_cancel token.job_id token.claimed_by token.claim_generation
            (now host s) s.catalog).1))

  acknowledge-EndsOrKeeps : (s : JobCoordinator) → EndsOrKeeps s (acknowledge_cancel host s)
  unfolding acknowledge_cancel
  acknowledge-EndsOrKeeps s = with_token-EndsOrKeeps s _ (λ token. dropped s _ (
      cleared s (acknowledge_claim host token s) (acknowledge_claim-active token s)
        (acknowledge_claim-not_cancelled token s)))

  handled :
      (s : JobCoordinator) (r : JobStep (Unit {0}))
      → r.0.active ≡ s.active
      → KeepsOrDrops s (handle_running_result host r)
  unfolding handle_running_result
  handled s (t, err cancelled_by_request) same = acknowledged s (acknowledge_cancel host t) (
      chained_end s t (acknowledge_cancel host t) (same_token s t same) (acknowledge-EndsOrKeeps t))
  handled s (t, ok a) same = cleared s (t, ok a) same (λ h. cc)
  handled s (t, err lost) same = cleared s (t, err lost) same (λ h. cc)
  handled s (t, err transition_refused) same = cleared s (t, err transition_refused) same (λ h. cc)
  handled s (t, err no_ready_model) same = cleared s (t, err no_ready_model) same (λ h. cc)
  handled s (t, err catalog_failed) same = cleared s (t, err catalog_failed) same (λ h. cc)
  handled s (t, err not_owner) same = cleared s (t, err not_owner) same (λ h. cc)

  extend-KeepsOrDrops : (s : JobCoordinator) → KeepsOrDrops s (extend host s)
  unfolding extend active_token
  extend-KeepsOrDrops s = elim (Option-cases s.active) [
    | inl e ↦ rw e refl
    | inr (claim, e) ↦ rw e refl
  ]

  renew_active-KeepsOrDrops : (s : JobCoordinator) → KeepsOrDrops s (renew_active host s)
  unfolding renew_active renew
  renew_active-KeepsOrDrops s = with_token-KeepsOrDrops s _ (λ token.
      and_then-KeepsOrDrops s _ (extend host)
        (handled s _ (statement-active (renewal token (now host s)) (tick s))) extend-KeepsOrDrops)

  enter_transcribing-KeepsOrDrops :
      (s : JobCoordinator) → KeepsOrDrops s (enter_transcribing host s)
  unfolding enter_transcribing mark_transcribing
  enter_transcribing-KeepsOrDrops s =
      and_then-KeepsOrDrops s _ _ (renew_active-KeepsOrDrops s) (λ t.
        with_token-KeepsOrDrops t _
          (λ token. handled t _ (statement-active (entry token (now host t)) (tick t))))

  renew_if_due-KeepsOrDrops : (s : JobCoordinator) → KeepsOrDrops s (renew_if_due host s)
  unfolding renew_if_due active_token now
  renew_if_due-KeepsOrDrops s = go s.active
    where
      go :
          (o : Option ClaimedJob)
          → KeepsOrDrops (record s { active = o }) (renew_if_due host (record s { active = o }))
      go none = refl
      go (some claim) = elim (Bool-cases (ltb (now host s) claim.renew_at)) [
        | inl early ↦ rw (early, renew_if_due) refl
        | inr due ↦
            rw (due, renew_if_due)
              (answered (record s { active = some claim }) _
                (renew_active-KeepsOrDrops (tick (record s { active = some claim }))))
      ]

  finish-EndsOrKeeps :
      (code summary : String) (s : JobCoordinator) → EndsOrKeeps s (finish_fail host code summary s)
  unfolding finish_fail fail_claim
  finish-EndsOrKeeps code summary s = with_token-EndsOrKeeps s _ (λ token.
      dropped s _ (
        handled s _ (statement-active (recorded_failure code summary token (now host s)) (tick s))))

  fail-EndsOrKeeps :
      (code summary : String) (s : JobCoordinator) → EndsOrKeeps s (fail host code summary s)
  unfolding fail
  fail-EndsOrKeeps code summary s =
      and_then-EndsOrKeeps s _ (finish_fail host code summary) (renew_active-KeepsOrDrops s)
        (finish-EndsOrKeeps code summary)

  -- A renewal that is due or not and the entry into the transcription keep the token of the claim if they
  -- succeed; a failure that is recorded and an acknowledged cancellation leave no claim if they succeed. Each of
  -- the four that fails leaves no claim if the job is lost or was cancelled on request, and keeps the token if it
  -- fails otherwise, as where the database fails or the process does not own the runtime.
  pub claim_follows_result :
      (code summary : String) (s : JobCoordinator)
      → KeepsOrDrops s (renew_if_due host s)
        × KeepsOrDrops s (enter_transcribing host s)
        × EndsOrKeeps s (fail host code summary s)
        × EndsOrKeeps s (acknowledge_cancel host s)
  claim_follows_result code summary s = (
    renew_if_due-KeepsOrDrops s,
    enter_transcribing-KeepsOrDrops s,
    fail-EndsOrKeeps code summary s,
    acknowledge-EndsOrKeeps s,
  )
