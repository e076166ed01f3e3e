-- ===== src/Jobs/Recovery/Keeps.antt =====
-- src-tauri/src/catalog/jobs.rs: recovery keeps the catalog valid, and leaves no stale job running.
use mathlib.Core.Option
use life_sub.Common.{
  ℕ, ◌≡◌, ◌↔◌, refl, sym, ap, subst, ◌∙◌, inl, inr, Bool, true, not, ◌&&◌, Option, none, some, List,
  [], ◌∷◌, String, ◌==◌, arith, Bool-cases, Option-cases,
}
use life_sub.Jobs.{AsrJob, Catalog, update_where, changed_by, find_job, is_active}
use life_sub.Jobs.Recovery.{
  RecoveryCounts, candidates, order_jobs, is_live, verdict, count_verdict, apply_verdict,
  is_candidate, recover_loop, recover_asr_jobs, recovered,
}
use life_sub.Jobs.Running.{has_id, update-IsValid, IsValid, HaveUniqueIds}
use life_sub.Jobs.Recovery.Loop.{recover_asr_jobs_exact}

module _ (boot_of : String → Option String) (boot : String) (now : ℕ) (retry_at : ℕ → ℕ) where
  loop-IsValid :
      (cs : List AsrJob) (counts counts' : RecoveryCounts) (c : Catalog) (jobs : List AsrJob)
      → IsValid c
      → recover_loop boot_of boot now retry_at cs counts c.jobs ≡ some (jobs, counts')
      → IsValid (record c { jobs = jobs })
  unfolding recover_loop apply_verdict is_active is_candidate
  loop-IsValid [] counts counts' c jobs v h = let e : c.jobs ≡ jobs = ground arith in rw (sym e) v
  loop-IsValid (d ∷ ds) counts counts' c jobs v h = elim (Bool-cases (is_live boot_of boot now d)) [
    | inl e ↦ loop-IsValid ds counts counts' c jobs v (ground arith)
    | inr e ↦ elim (Bool-cases (changed_by (is_candidate d) c.jobs == 1)) [
      | inl one ↦
          loop-IsValid ds (count_verdict d counts) counts'
            (record c {
              jobs =
                  update_where (is_candidate d) (apply_verdict now (verdict now retry_at d)) c.jobs;
            })
            jobs
            (update-IsValid (is_candidate d) (apply_verdict now (verdict now retry_at d)) c
              (λ j. refl) (λ j h k. ground arith) (λ j h. (refl, λ k. ground arith)) v)
            (ground arith)
      | inr other ↦ ground arith
    ]
  ]

  pub recover-IsValid :
      (before : String → String → Bool) (c d : Catalog) (counts : RecoveryCounts)
      → IsValid c
      → recover_asr_jobs boot_of boot now retry_at before c ≡ some (d, counts)
      → IsValid d
  unfolding recover_asr_jobs
  recover-IsValid before c d counts v h =
      elim (Option-cases (
        recover_loop boot_of boot now retry_at (order_jobs before (candidates c.jobs))
          (record { requeued = 0; cancelled_jobs = 0; exhausted = 0 }) c.jobs)) [
            | inl e ↦ ground arith
            | inr ((jobs, counts'), e) ↦
                let is_d : record c { jobs = jobs } ≡ d = ground arith in
                rw (sym is_d) (loop-IsValid _ _ counts' c jobs v e)
          ]

  running_after :
      (o : Option AsrJob) (j : AsrJob)
      → Option.map (recovered boot_of boot now retry_at) o ≡ some j
      → is_active j ≡ true
      → (is_live boot_of boot now j ≡ true) × (o ≡ some j)
  unfolding recovered apply_verdict is_active
  running_after none j h e = cc
  running_after (some k) j h e =
      elim (Bool-cases (is_active k && not (is_live boot_of boot now k))) [
        | inl stale ↦ ground arith
        | inr kept ↦
            let same : k ≡ j = ground arith in (rw (sym same) (ground arith), ap (λ x. some x) same)
      ]

  kept_running :
      (j : AsrJob) → is_live boot_of boot now j ≡ true → recovered boot_of boot now retry_at j ≡ j
  unfolding recovered
  kept_running j live = ground arith

  -- The jobs that run under an owner after recovery are exactly those that ran under one before it, are of this
  -- boot and hold a lease that has not expired, and recovery leaves these as they are. The keys of the table are
  -- distinct.
  pub recover_asr_jobs_running :
      (before : String → String → Bool) (c d : Catalog) (counts : RecoveryCounts) (x : String)
      (j : AsrJob)
      → HaveUniqueIds c.jobs
      → recover_asr_jobs boot_of boot now retry_at before c ≡ some (d, counts)
      → ((find_job (has_id x) d.jobs ≡ some j) × (is_active j ≡ true)) ↔ (
          (find_job (has_id x) c.jobs ≡ some j)
          × (is_active j ≡ true)
          × (is_live boot_of boot now j ≡ true))
  recover_asr_jobs_running before c d counts x j v ran =
      let (d', counts', ran', u, rows) =
        recover_asr_jobs_exact boot_of boot now retry_at before c v in
      let same : d' ≡ d = ground arith in
      let row : find_job (has_id x) d.jobs
          ≡ Option.map (recovered boot_of boot now retry_at) (find_job (has_id x) c.jobs) =
        subst
          (λ e.
            find_job (has_id x) e.jobs
            ≡ Option.map (recovered boot_of boot now retry_at) (find_job (has_id x) c.jobs))
          same (rows x) in
      (
        (λ (at, active).
            let (live, was) = running_after (find_job (has_id x) c.jobs) j (sym row ∙ at) active in
            (was, active, live)),
        (λ (was, active, live). (
          row
              ∙ ap (Option.map (recovered boot_of boot now retry_at)) was
              ∙ ap (λ k. some k) (kept_running j live),
          active,
        )),
      )
