-- ===== src/Jobs/Coordinator/Steps.antt =====
-- src-tauri/src/asr/job.rs: what becomes of a coordinator's claim where calls are put together.
use life_sub.Common.{subst, ◌≡◌, refl, sym, ◌∙◌, inl, inr, none, some, ok, err, arith, Option-cases}
use life_sub.Jobs.Coordinator.{
  ClaimToken, ClaimedJob, lost, cancelled_by_request, transition_refused, no_ready_model,
  catalog_failed, not_owner, JobCoordinator, JobStep, clear_if_ownership_lost, active_token,
}
use life_sub.Jobs.Coordinator.Methods.{
  with_token, drop_if_ok, after_acknowledge, and_then, answer_true,
}

-- A call that succeeds keeps the token of the claim. One that fails leaves no claim if the job is lost or its
-- cancellation was asked for, and keeps the token if it fails otherwise.
abbrev pub KeepsOrDrops : {A : Type 0} → JobCoordinator → JobStep A → Type 0
KeepsOrDrops s (t, ok a) = active_token t ≡ active_token s
KeepsOrDrops s (t, err lost) = t.active ≡ none
KeepsOrDrops s (t, err cancelled_by_request) = t.active ≡ none
KeepsOrDrops s (t, err _) = active_token t ≡ active_token s

-- A call that succeeds leaves no claim, and one that fails does as above.
abbrev pub EndsOrKeeps : JobCoordinator → JobStep (Unit {0}) → Type 0
EndsOrKeeps s (t, ok a) = t.active ≡ none
EndsOrKeeps s (t, err e) = KeepsOrDrops {A = Unit {0}} s (t, err e)

pub same_token : (s t : JobCoordinator) → t.active ≡ s.active → active_token t ≡ active_token s
unfolding active_token
same_token s t same = ground arith

pub chained :
    {A : Type 0} (s t : JobCoordinator) (r : JobStep A)
    → active_token t ≡ active_token s
    → KeepsOrDrops t r
    → KeepsOrDrops s r
chained s t (u, ok a) h k = k ∙ h
chained s t (u, err lost) h k = k
chained s t (u, err cancelled_by_request) h k = k
chained s t (u, err transition_refused) h k = k ∙ h
chained s t (u, err no_ready_model) h k = k ∙ h
chained s t (u, err catalog_failed) h k = k ∙ h
chained s t (u, err not_owner) h k = k ∙ h

pub chained_end :
    (s t : JobCoordinator) (r : JobStep (Unit {0}))
    → active_token t ≡ active_token s
    → EndsOrKeeps t r
    → EndsOrKeeps s r
chained_end s t (u, ok a) h k = k
chained_end s t (u, err e) h k = chained {A = Unit {0}} s t (u, err e) h k

pub acknowledged :
    (s : JobCoordinator) (r : JobStep (Unit {0}))
    → EndsOrKeeps s r
    → KeepsOrDrops s (after_acknowledge r)
acknowledged s (t, ok a) h = h
acknowledged s (t, err e) h = h

pub and_then-KeepsOrDrops :
    (s : JobCoordinator) (r : JobStep (Unit {0})) (next : JobCoordinator → JobStep (Unit {0}))
    → KeepsOrDrops s r
    → ((t : JobCoordinator) → KeepsOrDrops t (next t))
    → KeepsOrDrops s (and_then r next)
and_then-KeepsOrDrops s (t, err e) next h k = h
and_then-KeepsOrDrops s (t, ok a) next h k = chained s t (next t) h (k t)

pub and_then-EndsOrKeeps :
    (s : JobCoordinator) (r : JobStep (Unit {0})) (next : JobCoordinator → JobStep (Unit {0}))
    → KeepsOrDrops s r
    → ((t : JobCoordinator) → EndsOrKeeps t (next t))
    → EndsOrKeeps s (and_then r next)
and_then-EndsOrKeeps s (t, err e) next h k = h
and_then-EndsOrKeeps s (t, ok a) next h k = chained_end s t (next t) h (k t)

pub without_claim :
    (s : JobCoordinator) (body : ClaimToken → JobStep (Unit {0}))
    → s.active ≡ none
    → with_token s body ≡ (s, err lost)
unfolding active_token
without_claim s body e = ground arith

pub with_claim :
    (s : JobCoordinator) (claim : ClaimedJob) (body : ClaimToken → JobStep (Unit {0}))
    → s.active ≡ some claim
    → with_token s body ≡ body claim.token
unfolding active_token
with_claim s claim body e = ground arith

pub with_token-KeepsOrDrops :
    (s : JobCoordinator) (body : ClaimToken → JobStep (Unit {0}))
    → ((token : ClaimToken) → KeepsOrDrops s (body token))
    → KeepsOrDrops s (with_token s body)
unfolding active_token
with_token-KeepsOrDrops s body h = elim (Option-cases s.active) [
  | inl e ↦ subst (λ r. KeepsOrDrops s r) (sym (without_claim s body e)) e
  | inr (claim, e) ↦ subst (λ r. KeepsOrDrops s r) (sym (with_claim s claim body e)) (h claim.token)
]

pub with_token-EndsOrKeeps :
    (s : JobCoordinator) (body : ClaimToken → JobStep (Unit {0}))
    → ((token : ClaimToken) → EndsOrKeeps s (body token))
    → EndsOrKeeps s (with_token s body)
unfolding active_token
with_token-EndsOrKeeps s body h = elim (Option-cases s.active) [
  | inl e ↦ subst (λ r. EndsOrKeeps s r) (sym (without_claim s body e)) e
  | inr (claim, e) ↦ subst (λ r. EndsOrKeeps s r) (sym (with_claim s claim body e)) (h claim.token)
]

pub dropped :
    (s : JobCoordinator) (r : JobStep (Unit {0})) → KeepsOrDrops s r → EndsOrKeeps s (drop_if_ok r)
dropped s (t, ok a) h = refl
dropped s (t, err e) h = h

pub answered :
    (s : JobCoordinator) (r : JobStep (Unit {0}))
    → KeepsOrDrops s r
    → KeepsOrDrops s (answer_true r)
answered s (t, ok a) h = h
answered s (t, err lost) h = h
answered s (t, err cancelled_by_request) h = h
answered s (t, err transition_refused) h = h
answered s (t, err no_ready_model) h = h
answered s (t, err catalog_failed) h = h
answered s (t, err not_owner) h = h

-- What a statement answers to a call that has taken the claim.
pub cleared :
    (s : JobCoordinator) (r : JobStep (Unit {0}))
    → r.0.active ≡ s.active
    → (r.1 ≡ err cancelled_by_request → ⊥)
    → KeepsOrDrops s (clear_if_ownership_lost r)
unfolding clear_if_ownership_lost
cleared s (t, ok a) same h = same_token s t same
cleared s (t, err lost) same h = refl
cleared s (t, err cancelled_by_request) same h = elim (h refl) [ ]
cleared s (t, err transition_refused) same h = same_token s t same
cleared s (t, err no_ready_model) same h = same_token s t same
cleared s (t, err catalog_failed) same h = same_token s t same
cleared s (t, err not_owner) same h = same_token s t same
