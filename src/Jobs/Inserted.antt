-- ===== src/Jobs/Inserted.antt =====
-- src-tauri/src/catalog/jobs.rs: what an insertion does, on every branch.
use life_sub.Common.{
  ◌≡◌, refl, ◌⊎◌, inl, inr, Bool, true, false, not, ◌||◌, Option, none, some, List, [], ◌∷◌, String,
  ok, err, any, arith, Bool-cases, Option-cases, ◌≢◌,
}
use life_sub.Jobs.{
  JobState, AsrJob, Catalog, find_job, works_on, have_unique_work, is_active, changed_by,
}
use life_sub.Jobs.Enqueue.{
  InputValidation, available, missing, unavailable, identity_mismatch, EnqueueJob, input,
  refused_row, is_provider, validate_asr_input, active_asr_job_for_fingerprint, new_row, insert_row,
  insert_asr_job,
}
use life_sub.Jobs.Running.{has_id, IsValid}

none_found : (p : AsrJob → Bool) (js : List AsrJob) → find_job p js ≡ none → any p js ≡ false
unfolding find_job
none_found p [] h = refl
none_found p (j ∷ js) h = ground (arith, none_found p js)

some_found :
    (p : AsrJob → Bool) (js : List AsrJob) (j : AsrJob) → find_job p js ≡ some j → any p js ≡ true
unfolding find_job
some_found p [] j h = cc
some_found p (k ∷ ks) j h = ground (arith, some_found p ks j)

input_cases :
    (v : InputValidation)
    → (v ≡ available) ⊎ (v ≡ missing) ⊎ (v ≡ unavailable) ⊎ (v ≡ identity_mismatch)
input_cases available = inl refl
input_cases missing = inr (inl refl)
input_cases unavailable = inr (inr (inl refl))
input_cases identity_mismatch = inr (inr (inr refl))

insert_row-IsValid :
    (row : AsrJob) (c : Catalog)
    → is_active row ≡ false
    → IsValid c
    → IsValid ((insert_row row c).0)
unfolding insert_row changed_by
insert_row-IsValid row c idle v =
    elim (Bool-cases (
      not (is_provider row.provider)
      || any (has_id row.id) c.jobs
      || not (have_unique_work (row ∷ c.jobs)))) [
        | inl e ↦ rw e v
        | inr e ↦ rw e (record {
          unique_ids = (ground arith, v.unique_ids);
          one_running = rw idle v.one_running;
          unique_work = ground arith;
        })
      ]

pub insert-IsValid :
    (job : EnqueueJob) (state : JobState) (code summary : Option String) (c : Catalog)
    → IsValid c
    → IsValid ((insert_asr_job job state code summary c).0)
unfolding insert_asr_job new_row is_active
insert-IsValid job state code summary c v =
    elim (input_cases (validate_asr_input job.session_id job.chunk_id job.input_sha256 c)) [
      | inl e ↦ elim (Option-cases (active_asr_job_for_fingerprint job.fingerprint c)) [
        | inl f ↦ rw (e, f, insert_asr_job) (insert_row-IsValid _ c (ground arith) v)
        | inr (k, f) ↦ rw (e, f, insert_asr_job) v
      ]
      | inr (inl e) ↦ rw (e, insert_asr_job) v
      | inr (inr (inl e)) ↦ rw (e, insert_asr_job) v
      | inr (inr (inr e)) ↦ rw (e, insert_asr_job) v
    ]

new_work :
    (row : AsrJob) (js : List AsrJob)
    → any (works_on row.fingerprint) js ≡ false
    → have_unique_work js ≡ true
    → have_unique_work (row ∷ js) ≡ true
unfolding have_unique_work
new_work row js free h = ground arith

-- Into a catalog that is valid, a job with a new key is inserted exactly if its input is there, unaltered and
-- available, no unfinished job has its fingerprint and its provider is one that the table takes; if an
-- unfinished job has its fingerprint, the key of that job is returned; if the provider is another or the input
-- fails its check, the catalog stays as it is and the error names the failure. The statements of the database
-- fail only for such a provider.
pub insert_asr_job_exact :
    (job : EnqueueJob) (state : JobState) (code summary : Option String) (c : Catalog)
    → IsValid c
    → any (has_id job.id) c.jobs ≡ false
    → ((validate_asr_input job.session_id job.chunk_id job.input_sha256 c ≡ available)
        × (any (works_on job.fingerprint) c.jobs ≡ false)
        × (is_provider job.provider ≡ true)
        × (insert_asr_job job state code summary c ≡ (
          record c { jobs = new_row job state code summary ∷ c.jobs },
          ok (record { job_id = job.id; inserted = true }),
        )))
      ⊎ ((validate_asr_input job.session_id job.chunk_id job.input_sha256 c ≡ available)
          × ((k : AsrJob) × (find_job (works_on job.fingerprint) c.jobs ≡ some k)
              × (insert_asr_job job state code summary c
                  ≡ (c, ok (record { job_id = k.id; inserted = false })))))
      ⊎ ((validate_asr_input job.session_id job.chunk_id job.input_sha256 c ≡ available)
          × (any (works_on job.fingerprint) c.jobs ≡ false)
          × (is_provider job.provider ≡ false)
          × (insert_asr_job job state code summary c ≡ (c, err refused_row)))
      ⊎ ((v : InputValidation) × (validate_asr_input job.session_id job.chunk_id job.input_sha256 c
            ≡ v)
          × (v ≢ available)
          × (insert_asr_job job state code summary c ≡ (c, err (input v))))
unfolding insert_asr_job insert_row active_asr_job_for_fingerprint new_row
insert_asr_job_exact job state code summary c v fresh =
    elim (input_cases (validate_asr_input job.session_id job.chunk_id job.input_sha256 c)) [
      | inl e ↦ elim (Option-cases (find_job (works_on job.fingerprint) c.jobs)) [
        | inl f ↦
            let free = none_found (works_on job.fingerprint) c.jobs f in
            elim (Bool-cases (is_provider job.provider)) [
              | inl known ↦ inl (
                e,
                free,
                known,
                rw
                    (
                      e,
                      f,
                      insert_asr_job,
                      known,
                      fresh,
                      new_work (new_row job state code summary) c.jobs free v.unique_work,
                    )
                    refl,
              )
              | inr other ↦ inr (inr (inl (e, free, other, rw (e, f, insert_asr_job, other) refl)))
            ]
        | inr (k, f) ↦ inr (inl (e, (k, f, rw (e, f, insert_asr_job) refl)))
      ]
      | inr (inl e) ↦ inr (inr (inr (missing, e, (λ h. cc), rw (e, insert_asr_job) refl)))
      | inr (inr (inl e)) ↦ inr (inr (inr (unavailable, e, (λ h. cc), rw (e, insert_asr_job) refl)))
      | inr (inr (inr e)) ↦
          inr (inr (inr (identity_mismatch, e, (λ h. cc), rw (e, insert_asr_job) refl)))
    ]
