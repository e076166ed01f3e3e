-- ===== src/Jobs/Fresh.antt =====
-- src-tauri/src/catalog/jobs.rs: what a claim hands to its owner.
use life_sub.Common.{
  ℕ, suc, ◌≡◌, refl, ◌∙◌, sym, ap, subst, inl, inr, Bool, true, false, ◌&&◌, none, some, List, [],
  ◌∷◌, String, any, str_eq, str_eq_iff, arith, Bool-cases, Option-cases,
}
use life_sub.Jobs.{
  AsrJob, Catalog, ClaimedJobRow, update_where, changed_by, find_job, is_running, is_token,
  is_active,
}
use life_sub.Jobs.Claims.{
  is_claimable, first_job, claim_row, claim_asr_job, claimed_row, owns_running_asr_job,
}
use life_sub.Jobs.Recovery.Rows.{str_eq_refl}
use life_sub.Jobs.Running.{not_selected, HaveUniqueIds, has_id}
use life_sub.Jobs.Calls.{first_job-selected, claimable-alone}

-- Where one row has the key of the update, and the update selects it, it is the row that is found.
found :
    (p : AsrJob → Bool) (f : AsrJob → AsrJob) (js : List AsrJob) (x : String) (m : AsrJob)
    → ((j : AsrJob) → (f j).id ≡ j.id)
    → ((j : AsrJob) → p j ≡ true → has_id x j ≡ true)
    → find_job (has_id x) (update_where p f js) ≡ some m
    → changed_by p js ≡ 1
    → HaveUniqueIds js
    → (j : AsrJob) × (m ≡ f j) × (p j ≡ true) × (find_job (has_id x) js ≡ some j)
unfolding find_job update_where changed_by
found p f [] x m same selects h one v = cc
found p f (j ∷ js) x m same selects h one (fresh, v) = elim (Bool-cases (p j)) [
  | inl e ↦ (j, ground (arith, same j, selects j), e, ground (arith, selects j))
  | inr e ↦ elim (Bool-cases (has_id x j)) [
    | inl mine ↦
        let gone = subst (λ y. any (has_id y) js ≡ false) ((str_eq_iff j.id x).0 mine) fresh in
        let (_, none_changed, _) = not_selected p (has_id x) f js selects gone in ground arith
    | inr other ↦
        let (k, is_k, selected, at) =
          found p f js x m same selects (ground arith) (ground arith) v in
        (k, is_k, selected, rw other at)
  ]
]

owned :
    (j : AsrJob) (js : List AsrJob) (x : String) (q : AsrJob → Bool)
    → find_job (has_id x) js ≡ some j
    → q j ≡ true
    → any q js ≡ true
unfolding find_job
owned j [] x q h e = cc
owned j (k ∷ js) x q h e = ground (arith, owned j js x q)

found_id :
    (j : AsrJob) (js : List AsrJob) (x : String)
    → find_job (has_id x) js ≡ some j
    → has_id x j ≡ true
unfolding find_job
found_id j [] x h = cc
found_id j (k ∷ js) x h = ground (arith, found_id j js x)

no_claim :
    {P : Type 0} (before : String → String → Bool) (owner : String) (now lease : ℕ) (c : Catalog)
    (row : ClaimedJobRow)
    → first_job before (is_claimable c now) c.jobs ≡ none
    → (claim_asr_job before owner now lease c).1 ≡ some row
    → P
unfolding claim_asr_job
no_claim before owner now lease c row e h = ground arith

-- What a claim does when it returns a row.
claim-eq-some :
    (before : String → String → Bool) (owner : String) (now lease : ℕ) (c : Catalog)
    (row : ClaimedJobRow) (k : AsrJob)
    → first_job before (is_claimable c now) c.jobs ≡ some k
    → (claim_asr_job before owner now lease c).1 ≡ some row
    → (m : AsrJob) × (changed_by (λ j. str_eq j.id k.id && is_claimable c now j) c.jobs ≡ 1)
      × (find_job (has_id k.id) (
            update_where
              (λ j. str_eq j.id k.id && is_claimable c now j)
              (claim_row owner now lease)
              c.jobs)
          ≡ some m)
      × (row ≡ claimed_row m)
      × ((claim_asr_job before owner now lease c).0 ≡ record c {
        jobs =
            update_where
              (λ j. str_eq j.id k.id && is_claimable c now j)
              (claim_row owner now lease)
              c.jobs;
      })
unfolding claim_asr_job
claim-eq-some before owner now lease c row k e h =
    elim (Option-cases (
      find_job (has_id k.id) (
        update_where (λ j. str_eq j.id k.id && is_claimable c now j) (claim_row owner now lease)
          c.jobs))) [
            | inl n ↦ ground arith
            | inr (m, f) ↦ (m, ground arith, f, ground arith, ground arith)
          ]

token-owned :
    (owner : String) (now lease : ℕ) (j : AsrJob)
    → (is_token j.id owner (suc j.claim_generation) (claim_row owner now lease j)
        && is_running (claim_row owner now lease j).state)
      ≡ true
unfolding is_token claim_row
token-owned owner now lease j = rw (str_eq_refl j.id, str_eq_refl owner) (ground arith)

-- A claim that returns a row was made while no job was running under an owner, and the row's id and generation,
-- with the owner's name, are a token that owns a running job; its generation and its count of attempts are one
-- more than those of a queued job of that id before the claim. The keys of the catalog are distinct.
pub claim_asr_job_fresh :
    (before : String → String → Bool) (owner : String) (now lease : ℕ) (c : Catalog)
    (row : ClaimedJobRow)
    → HaveUniqueIds c.jobs
    → (claim_asr_job before owner now lease c).1 ≡ some row
    → (any is_active c.jobs ≡ false)
      × (owns_running_asr_job row.claimed_id owner row.generation
            ((claim_asr_job before owner now lease c).0)
          ≡ true)
      × ((j : AsrJob) × (find_job (has_id row.claimed_id) c.jobs ≡ some j)
          × (is_claimable c now j ≡ true)
          × (row.generation ≡ suc j.claim_generation)
          × (row.claimed_attempt_count ≡ suc j.attempt_count))
unfolding owns_running_asr_job claim_row
claim_asr_job_fresh before owner now lease c row v h =
    elim (Option-cases (first_job before (is_claimable c now) c.jobs)) [
      | inl e ↦ no_claim before owner now lease c row e h
      | inr (k, e) ↦
          let (m, one, at, is_row, after) = claim-eq-some before owner now lease c row k e h in
          let (j, is_m, claimable, was) =
            found (λ j. str_eq j.id k.id && is_claimable c now j) (claim_row owner now lease) c.jobs
              k.id m (λ j. refl) (λ j h. ground arith) at one v in
          let same = (str_eq_iff j.id k.id).0 (found_id j c.jobs k.id was) in
          let e_row = is_row ∙ ap claimed_row is_m in
          rw (e_row, after)
            (
              claimable-alone before c now k
                  (first_job-selected before (is_claimable c now) c.jobs k e),
              owned (claim_row owner now lease j) _ k.id _
                  (subst
                    (λ x.
                      find_job (has_id k.id) (
                        update_where (λ j. str_eq j.id k.id && is_claimable c now j)
                          (claim_row owner now lease) c.jobs)
                      ≡ some x)
                    is_m at)
                  (token-owned owner now lease j),
              (
                j,
                subst (λ x. find_job (has_id x) c.jobs ≡ some j) (sym same) was,
                ground arith,
                refl,
                refl,
              ),
            )
    ]
