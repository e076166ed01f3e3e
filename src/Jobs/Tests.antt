-- ===== src/Jobs/Tests.antt =====
-- src-tauri/src/catalog/jobs.rs: runs of the statements on a table of two jobs.
use mathlib.Core.Option
use life_sub.Common.{
  ◌≢◌, ◌⊎◌, ◌↔◌, ok, err, ℕ, suc, any, ◌≡◌, refl, false, true, none, some, List, [], ◌∷◌, String,
  arith, ◌==◌, if◌then◌else◌,
}
use life_sub.Jobs.{
  have_unique_work, works_on, JobSnapshot, AsrJob, Catalog, ReadyModel, queued, preparing, find_job,
  chunk_is_available, ClaimedJobRow, update_where, changed_by, is_active, is_token, ownership_lost,
}
use life_sub.Jobs.Claims.{
  claim_asr_job, first_job, is_claimable, comes_first, claim_row, renew_asr_job,
  mark_asr_job_transcribing, fail_asr_job, acknowledge_asr_job_cancel, owns_running_asr_job,
}
use life_sub.Jobs.Running.{IsValid, has_id, HaveUniqueIds}
use life_sub.Jobs.Fresh.{claim_asr_job_fresh}
use life_sub.Jobs.Recovery.{
  recover_asr_jobs, candidates, order_jobs, insert_job, is_before, recover_loop, is_live, recovered,
  RecoveryCounts,
}
use life_sub.Jobs.Recovery.Loop.{recover_asr_jobs_exact}
use life_sub.Jobs.Recovery.Keeps.{recover_asr_jobs_running}
use life_sub.Jobs.Enqueue.{
  EnqueueJob, InputValidation, input, refused_row, is_provider, available, validate_asr_input,
  insert_asr_job, new_row,
}
use life_sub.Jobs.Inserted.{insert_asr_job_exact}
use life_sub.Jobs.Coordinator.{JobCoordinator, Host, database}
use life_sub.Jobs.Coordinator.Methods.{renew_if_due, enter_transcribing, acknowledge_cancel}
use life_sub.Jobs.Coordinator.Methods.{fail as fail_active}
use life_sub.Jobs.Coordinator.Steps.{KeepsOrDrops, EndsOrKeeps}
use life_sub.Jobs.Coordinator.Claims.{claim_follows_result}
use life_sub.Jobs.Calls.{
  Statement, claim, renew, mark_transcribing, fail, retry, request_cancel, execute_all,
  execute_all-IsValid, stale_owner_refused,
}

abbrev texts : JobSnapshot
texts = record {
  required_file_hashes_json = "f";
  model_source_json = "u";
  vad_model_id = none;
  vad_manifest_version = none;
  vad_archive_sha256 = none;
  vad_required_file_hashes_json = none;
  parameters_json = "p";
}

abbrev job : String → ℕ → AsrJob
job name created = record {
  id = name;
  session_id = "s";
  chunk_id = "c";
  provider = "whisper";
  model_id = "m";
  manifest_version = "1";
  archive_sha256 = "a";
  snapshot = texts;
  input_sha256 = "h";
  fingerprint = name;
  state = queued;
  attempt_count = 0;
  claim_generation = 0;
  max_attempts = 3;
  available_at = 1;
  claimed_by = none;
  lease_expires_at = none;
  cancel_requested_at = none;
  error_code = none;
  error_summary = none;
  created_at = created;
  updated_at = created;
}

abbrev two_jobs : Catalog
two_jobs = record {
  jobs = job "x" 1 ∷ job "y" 2 ∷ [];
  chunks =
      record { chunk = "c"; chunk_session = "s"; chunk_sha256 = "h"; integrity_state = "available" }
      ∷ [];
  installations = [];
}

two_jobs-IsValid : IsValid two_jobs
unfolding changed_by is_active have_unique_work works_on
two_jobs-IsValid = record {
  unique_ids = (refl, (refl, tt));
  one_running = omega arith;
  unique_work = refl;
}

abbrev model : ReadyModel
model = record {
  provider = "whisper";
  model_id = "m";
  manifest_version = "1";
  bundle_identity = "a";
  runtime_identity_json = "r";
}

abbrev statements : List Statement
statements =
    claim "w" 5 35
    ∷ claim "w" 6 36
    ∷ mark_transcribing "x" "w" 1 7
    ∷ renew "x" "w" 1 8 38
    ∷ fail "x" "w" 1 9 "e" "s"
    ∷ claim "w" 10 40
    ∷ retry "x" model 10
    ∷ request_cancel "y" 11
    ∷ []

execute_all-IsValid_example : IsValid (execute_all (λ _ _. false) statements two_jobs)
execute_all-IsValid_example =
    execute_all-IsValid (λ _ _. false) statements two_jobs two_jobs-IsValid

abbrev claimed : ClaimedJobRow
claimed = record { claimed_id = "x"; claimed_attempt_count = 1; generation = 1 }

claim_asr_job_fresh_example :
    (any is_active two_jobs.jobs ≡ false)
    × (owns_running_asr_job "x" "w" 1 ((claim_asr_job (λ _ _. false) "w" 5 35 two_jobs).0) ≡ true)
    × ((j : AsrJob) × (find_job (has_id "x") two_jobs.jobs ≡ some j)
        × (is_claimable two_jobs 5 j ≡ true)
        × (1 ≡ suc j.claim_generation)
        × (1 ≡ suc j.attempt_count))
unfolding claim_asr_job first_job is_claimable comes_first is_active chunk_is_available find_job
    update_where changed_by claim_row
claim_asr_job_fresh_example =
    claim_asr_job_fresh (λ _ _. false) "w" 5 35 two_jobs claimed two_jobs-IsValid.unique_ids refl

stale_owner_refused_example :
    (renew_asr_job "x" "w" 0 5 35 two_jobs ≡ (two_jobs, ownership_lost))
    × (mark_asr_job_transcribing "x" "w" 0 5 two_jobs ≡ (two_jobs, ownership_lost))
    × (fail_asr_job "x" "w" 0 5 "e" "s" two_jobs ≡ (two_jobs, ownership_lost))
    × (acknowledge_asr_job_cancel "x" "w" 0 5 two_jobs ≡ (two_jobs, 0))
unfolding owns_running_asr_job is_token
stale_owner_refused_example = stale_owner_refused "x" "w" "e" "s" 0 5 35 two_jobs refl

abbrev running_x : AsrJob
running_x = record (job "x" 1) {
  state = preparing;
  claimed_by = some "now";
  claim_generation = 1;
  attempt_count = 1;
  lease_expires_at = some 90;
}

-- "x" runs under an owner of this boot, and "y" under one of a boot before it.
abbrev after_restart : Catalog
after_restart = record two_jobs {
  jobs =
      running_x
      ∷ record (job "y" 2) { max_attempts = 0; state = preparing; error_code = some "e" }
      ∷ [];
}

after_restart-IsValid : IsValid after_restart
unfolding changed_by is_active have_unique_work works_on
after_restart-IsValid = record {
  unique_ids = (refl, (refl, tt));
  one_running = omega arith;
  unique_work = refl;
}

recover_asr_jobs_exact_example :
    (d : Catalog) × (counts : RecoveryCounts) × (recover_asr_jobs
        (λ o. some o)
        "later"
        5
        (λ n. n)
        (λ _ _. false)
        after_restart
      ≡ some (d, counts))
    × HaveUniqueIds d.jobs
    × ((x : String)
        → find_job (has_id x) d.jobs
          ≡ Option.map
              (recovered (λ o. some o) "later" 5 (λ n. n))
              (find_job (has_id x) after_restart.jobs))
recover_asr_jobs_exact_example =
    recover_asr_jobs_exact (λ o. some o) "later" 5 (λ n. n) (λ _ _. false) after_restart
      after_restart-IsValid.unique_ids

recover_asr_jobs_running_example :
    ((find_job (has_id "x") after_restart.jobs ≡ some running_x) × (is_active running_x ≡ true)) ↔ (
      (find_job (has_id "x") after_restart.jobs ≡ some running_x)
      × (is_active running_x ≡ true)
      × (is_live (λ o. some o) "now" 5 running_x ≡ true))
unfolding recover_asr_jobs candidates order_jobs insert_job is_before recover_loop is_live is_active
recover_asr_jobs_running_example =
    recover_asr_jobs_running (λ o. some o) "now" 5 (λ n. n) (λ _ _. false) after_restart
      after_restart (record { requeued = 0; cancelled_jobs = 0; exhausted = 0 }) "x" running_x
      after_restart-IsValid.unique_ids refl

abbrev new_job : EnqueueJob
new_job = record {
  id = "z";
  session_id = "s";
  chunk_id = "c";
  provider = "whisper";
  model_id = "m";
  manifest_version = "1";
  archive_sha256 = "a";
  snapshot = texts;
  input_sha256 = "h";
  fingerprint = "z";
  available_at = 1;
  created_at = 1;
}

insert_asr_job_exact_example :
    ((validate_asr_input "s" "c" "h" two_jobs ≡ available)
      × (any (works_on "z") two_jobs.jobs ≡ false)
      × (is_provider "whisper" ≡ true)
      × (insert_asr_job new_job queued none none two_jobs ≡ (
        record two_jobs { jobs = new_row new_job queued none none ∷ two_jobs.jobs },
        ok (record { job_id = "z"; inserted = true }),
      )))
    ⊎ ((validate_asr_input "s" "c" "h" two_jobs ≡ available)
        × ((k : AsrJob) × (find_job (works_on "z") two_jobs.jobs ≡ some k)
            × (insert_asr_job new_job queued none none two_jobs
                ≡ (two_jobs, ok (record { job_id = k.id; inserted = false })))))
    ⊎ ((validate_asr_input "s" "c" "h" two_jobs ≡ available)
        × (any (works_on "z") two_jobs.jobs ≡ false)
        × (is_provider "whisper" ≡ false)
        × (insert_asr_job new_job queued none none two_jobs ≡ (two_jobs, err refused_row)))
    ⊎ ((v : InputValidation) × (validate_asr_input "s" "c" "h" two_jobs ≡ v)
        × (v ≢ available)
        × (insert_asr_job new_job queued none none two_jobs ≡ (two_jobs, err (input v))))
insert_asr_job_exact_example =
    insert_asr_job_exact new_job queued none none two_jobs two_jobs-IsValid refl

abbrev holding : JobCoordinator
holding = record {
  catalog = after_restart;
  active = some (record {
    claimed_id = "x";
    attempt_count = 1;
    renew_at = 5;
    lease_expires_at = 90;
    token = record { job_id = "x"; claimed_by = "now"; claim_generation = 1 };
  });
  readings = 0;
  statements = 0;
}

-- The third statement fails.
abbrev host : Host
host = record { time = λ n. n; failure = λ n. if n == 2 then some database else none }

claim_follows_result_example :
    KeepsOrDrops holding (renew_if_due host holding)
    × KeepsOrDrops holding (enter_transcribing host holding)
    × EndsOrKeeps holding (fail_active host "e" "s" holding)
    × EndsOrKeeps holding (acknowledge_cancel host holding)
claim_follows_result_example = claim_follows_result host "e" "s" holding
