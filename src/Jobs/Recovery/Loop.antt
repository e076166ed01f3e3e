-- ===== src/Jobs/Recovery/Loop.antt =====
-- src-tauri/src/catalog/jobs.rs: the loop of recovery, row by row against its specification.
use mathlib.Core.Option
use life_sub.Common.{
  ℕ, ◌≡◌, refl, ◌∙◌, subst, inl, inr, Bool, true, false, Option, none, some, List, [], ◌∷◌, String,
  if◌then◌else◌, any, All, str_eq, str_eq_iff, arith, Bool-cases, Option-cases,
}
use life_sub.Jobs.{AsrJob, Catalog, update_where, find_job, is_active}
use life_sub.Jobs.Recovery.{
  RecoveryCounts, candidates, order_jobs, is_live, verdict, count_verdict, apply_verdict,
  is_candidate, recover_loop, recover_asr_jobs, recovered,
}
use life_sub.Jobs.Running.{HaveUniqueIds, has_id, update-HaveUniqueIds}
use life_sub.Jobs.Recovery.Rows.{
  str_eq_refl, str_eq_sym, find-other, find-same, IsFound, All-IsFound, candidates-All,
  candidates-HaveUniqueIds, candidate_of, order-All, order-any, order-HaveUniqueIds,
}

abbrev IsReady : List AsrJob → AsrJob → Type 0
IsReady jobs c = IsFound jobs c × (is_active c ≡ true)

is_candidate_self : (c : AsrJob) → is_active c ≡ true → is_candidate c c ≡ true
unfolding is_candidate is_active
is_candidate_self c h = elim (Option-cases c.claimed_by) [
  | inl e ↦ ground arith
  | inr (o, e) ↦ rw (str_eq_refl c.id, e, str_eq_refl o) (ground arith)
]

is_candidate-has_id : (c j : AsrJob) → is_candidate c j ≡ true → has_id c.id j ≡ true
unfolding is_candidate
is_candidate-has_id c j h = ground arith

module _ (boot_of : String → Option String) (boot : String) (now : ℕ) (retry_at : ℕ → ℕ) where
  abbrev live : AsrJob → Bool
  live = is_live boot_of boot now

  abbrev settle : AsrJob → AsrJob → AsrJob
  settle c = apply_verdict now (verdict now retry_at c)

  settle_id : (c j : AsrJob) → (settle c j).id ≡ j.id
  unfolding apply_verdict
  settle_id c j = refl

  map_id : (o : Option AsrJob) → o ≡ Option.map (λ j. j) o
  map_id none = refl
  map_id (some j) = refl

  -- What the loop over some candidates makes of a row.
  abbrev settled : List AsrJob → AsrJob → AsrJob
  settled cs j = if any (has_id j.id) cs then recovered boot_of boot now retry_at j else j

  abbrev looked_up : List AsrJob → String → List AsrJob → Option AsrJob
  looked_up cs x js =
      Option.map (λ j. if any (has_id x) cs then recovered boot_of boot now retry_at j else j)
        (find_job (has_id x) js)

  live_row :
      (x : String) (c : AsrJob) (cs jobs : List AsrJob)
      → IsFound jobs c
      → any (has_id c.id) cs ≡ false
      → live c ≡ true
      → looked_up cs x jobs ≡ looked_up (c ∷ cs) x jobs
  unfolding recovered
  live_row x c cs jobs at fresh e = elim (Bool-cases (str_eq c.id x)) [
    | inl mine ↦
        subst (λ y. looked_up cs y jobs ≡ looked_up (c ∷ cs) y jobs) ((str_eq_iff c.id x).0 mine)
          (rw (at, fresh, str_eq_refl c.id) (ground arith))
    | inr other ↦ rw other refl
  ]

  settled_row :
      (x : String) (c : AsrJob) (cs jobs : List AsrJob)
      → IsFound jobs c
      → find_job (has_id c.id) (update_where (is_candidate c) (settle c) jobs) ≡ some (settle c c)
      → any (has_id c.id) cs ≡ false
      → is_active c ≡ true
      → live c ≡ false
      → looked_up cs x (update_where (is_candidate c) (settle c) jobs) ≡ looked_up (c ∷ cs) x jobs
  unfolding recovered
  settled_row x c cs jobs at at' fresh active e = elim (Bool-cases (str_eq c.id x)) [
    | inl mine ↦
        subst
          (λ y.
            looked_up cs y (update_where (is_candidate c) (settle c) jobs)
            ≡ looked_up (c ∷ cs) y jobs)
          ((str_eq_iff c.id x).0 mine) (rw (at, at', fresh, str_eq_refl c.id, active, e) refl)
    | inr other ↦
        rw
          (
            find-other (is_candidate c) (settle c) c.id jobs x (settle_id c) (is_candidate-has_id c)
                other,
            other,
          )
          refl
  ]

  still-IsReady :
      (jobs : List AsrJob) (c : AsrJob) (cs : List AsrJob)
      → any (has_id c.id) cs ≡ false
      → All (IsReady jobs) cs
      → All (IsReady (update_where (is_candidate c) (settle c) jobs)) cs
  still-IsReady jobs c [] fresh v = tt
  still-IsReady jobs c (d ∷ ds) fresh ((at, active), v) = (
    (
      find-other (is_candidate c) (settle c) c.id jobs d.id (settle_id c) (is_candidate-has_id c)
            (ground (arith, str_eq_sym c.id d.id))
          ∙ at,
      active,
    ),
    still-IsReady jobs c ds (ground arith) v,
  )

  LoopSettles : List AsrJob → RecoveryCounts → List AsrJob → Type 0
  LoopSettles cs counts jobs =
      (jobs' : List AsrJob) × (counts' : RecoveryCounts) × (recover_loop boot_of boot now retry_at
          cs counts jobs
        ≡ some (jobs', counts'))
      × HaveUniqueIds jobs'
      × ((x : String) → find_job (has_id x) jobs' ≡ looked_up cs x jobs)

  recover_loop_ok :
      (cs : List AsrJob) (counts : RecoveryCounts) (jobs : List AsrJob)
      → HaveUniqueIds jobs
      → HaveUniqueIds cs
      → All (IsReady jobs) cs
      → LoopSettles cs counts jobs
  unfolding LoopSettles recover_loop recovered
  recover_loop_ok [] counts jobs u v ready =
      (jobs, counts, refl, u, λ x. map_id (find_job (has_id x) jobs))
  recover_loop_ok (c ∷ cs) counts jobs u (fresh, v) ((at, active), ready) =
      elim (Bool-cases (live c)) [
        | inl e ↦
            let (jobs', counts', ran, u', rows) = recover_loop_ok cs counts jobs u v ready in
            (
              jobs',
              counts',
              rw (e, recover_loop) ran,
              u',
              λ x. rows x ∙ live_row x c cs jobs at fresh e,
            )
        | inr e ↦
            let (at', one) =
              find-same (is_candidate c) (settle c) c.id jobs c (settle_id c)
                (is_candidate-has_id c) u at (is_candidate_self c active) in
            let next = update_where (is_candidate c) (settle c) jobs in
            let (jobs', counts', ran, u', rows) =
              recover_loop_ok cs (count_verdict c counts) next
                (update-HaveUniqueIds (is_candidate c) (settle c) jobs (settle_id c) u) v
                (still-IsReady jobs c cs fresh ready) in
            (
              jobs',
              counts',
              rw (e, one, recover_loop) ran,
              u',
              λ x. rows x ∙ settled_row x c cs jobs at at' fresh active e,
            )
      ]

  module _ (before : String → String → Bool) where
    row_of :
        (x : String) (js : List AsrJob)
        → looked_up (order_jobs before (candidates js)) x js
          ≡ Option.map (recovered boot_of boot now retry_at) (find_job (has_id x) js)
    unfolding recovered
    row_of x js = elim (Option-cases (find_job (has_id x) js)) [
      | inl none_there ↦ rw none_there refl
      | inr (j, at) ↦ elim (Bool-cases (is_active j)) [
        | inl active ↦
            rw (at, order-any before x (candidates js), candidate_of x js j at active) refl
        | inr idle ↦ rw (at, idle) (ground arith)
      ]
    ]

    -- Recovery of a catalog with distinct keys succeeds, and what it leaves under each key is what `recovered`
    -- makes of the row under it, whatever the order in which the rows are visited: a running job of another boot,
    -- or whose lease has expired, is settled by its verdict, and no other row changes.
    pub recover_asr_jobs_exact :
        (c : Catalog)
        → HaveUniqueIds c.jobs
        → (d : Catalog) × (counts : RecoveryCounts) × (recover_asr_jobs boot_of boot now retry_at
              before c
            ≡ some (d, counts))
          × HaveUniqueIds d.jobs
          × ((x : String)
              → find_job (has_id x) d.jobs
                ≡ Option.map (recovered boot_of boot now retry_at) (find_job (has_id x) c.jobs))
    unfolding LoopSettles recover_asr_jobs
    recover_asr_jobs_exact c u =
        let cs = order_jobs before (candidates c.jobs) in
        let ready =
          order-All before (IsReady c.jobs) (candidates c.jobs)
            (candidates-All (IsFound c.jobs) c.jobs (All-IsFound c.jobs u)) in
        let (jobs, counts, ran, u', rows) =
          recover_loop_ok cs (record { requeued = 0; cancelled_jobs = 0; exhausted = 0 }) c.jobs u
            (order-HaveUniqueIds before (candidates c.jobs) (candidates-HaveUniqueIds c.jobs u))
            ready in
        (
          record c { jobs = jobs },
          counts,
          rw (ran, recover_asr_jobs) refl,
          u',
          λ x. rows x ∙ row_of x c.jobs,
        )
