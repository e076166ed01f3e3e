-- ===== src/Transcripts/Tests.antt =====
-- src-tauri/src/catalog.rs and src-tauri/src/catalog/publication.rs: a session whose transcript is appended, edited and
-- published.
use life_sub.Common.{
  suc, ◌≡◌, refl, Bool, true, false, not, none, some, List, [], ◌∷◌, String, is_ok, all, map,
  length, trim, trim_start, trim_end, trim_is_empty, is_whitespace,
}
use life_sub.Capture.Seal.{microphone}
use life_sub.Jobs.{AsrJob, JobSnapshot, transcribing, is_token, update_where, changed_by, find_job}
use life_sub.Transcripts.{
  TranscriptSegment, TranscriptRevision, RevisionRow, ChunkRow, TranscriptCatalog, max_number,
  insert_revision, insert_segment, insert_segments, commit_transaction, append_body,
  append_revision,
}
use life_sub.Transcripts.Integers.{i64_checked_add}
use life_sub.Transcripts.Publication.{
  PublicationFailurePoint, is_publishable, joined_chunk, publication_context, is_valid_segment,
  snapshot_eq, validate_receipt, succeed_row, mark_job_succeeded, insert_receipt, link_receipt,
  published_segment,
}
use life_sub.Transcripts.Publishing.{
  PublishRequest, fail_if_requested, publish_segments, revision_row, succeed, publish_revision,
  publish_rest, publish_body, publish_asr_result,
}
use life_sub.Transcripts.Manual.{
  latest_revision, segments_of, is_bound, check_binding, check_bindings, is_available_chunk,
  same_boundaries, derive_segment, derive_segments, check_latest, insert_ordered, manual_body,
  append_manual_revision_from_latest,
}
use life_sub.Transcripts.Changes.{Change, append, append_manual, publish_result, apply_all}
use life_sub.Transcripts.Numbers.{numbers_of, one_to, apply_all-numbers}
use life_sub.Transcripts.Published.{published_once}
use life_sub.Transcripts.Edited.{boundaries, append_manual_revision-keeps}

abbrev earlier : String → String → Bool
earlier _ _ = false

abbrev snapshot : JobSnapshot
snapshot = record {
  required_file_hashes_json = "[]";
  model_source_json = "{}";
  vad_model_id = none;
  vad_manifest_version = none;
  vad_archive_sha256 = none;
  vad_required_file_hashes_json = none;
  parameters_json = "{}";
}

abbrev job : AsrJob
job = record {
  id = "job_1";
  session_id = "ses_1";
  chunk_id = "chk_1";
  provider = "whisper";
  model_id = "base";
  manifest_version = "1";
  archive_sha256 = "aa";
  snapshot = snapshot;
  input_sha256 = "bb";
  fingerprint = "cc";
  state = transcribing;
  attempt_count = 1;
  claim_generation = 1;
  max_attempts = 3;
  available_at = 1;
  claimed_by = some "boot_1";
  lease_expires_at = some 100;
  cancel_requested_at = none;
  error_code = none;
  error_summary = none;
  created_at = 1;
  updated_at = 1;
}

abbrev chunk : ChunkRow
chunk = record {
  id = "chk_1";
  session_id = "ses_1";
  source = microphone;
  session_offset_ms = 5000;
  duration_ms = some 9000;
  is_available = true;
}

abbrev empty : TranscriptCatalog
empty = record {
  jobs = job ∷ [];
  chunks = chunk ∷ [];
  receipts = [];
  revisions = [];
  revision_receipts = [];
  segments = [];
  segment_search = [];
}

abbrev request : PublishRequest
request = record {
  token = record { job_id = "job_1"; claimed_by = "boot_1"; claim_generation = 1 };
  receipt = record {
    job_id = "job_1";
    chunk_id = "chk_1";
    provider = "whisper";
    model_id = "base";
    manifest_version = "1";
    archive_sha256 = "aa";
    snapshot = snapshot;
    runtime_version = "1";
    runtime_build_id = "1";
    input_sha256 = "bb";
    started_at = 10;
    finished_at = 20;
  };
  segments =
      (record {
        id = "seg_1";
        chunk_start_ms = 0;
        chunk_end_ms = 1000;
        source = microphone;
        text = "hello";
      })
      ∷ [];
  now = 50;
  new_receipt_id = "receipt_1";
  new_revision_id = "tr_1";
}

abbrev segment : TranscriptSegment
segment = record {
  id = "seg_1";
  start_ms = 5000;
  end_ms = 6000;
  source = microphone;
  text = "hello";
  chunk_id = some "chk_1";
  chunk_start_ms = some 0;
  chunk_end_ms = some 1000;
}

abbrev none_fails : PublicationFailurePoint → Bool
none_fails _ = false

abbrev published : TranscriptCatalog
published = (publish_asr_result none_fails true request empty).0

abbrev revision : TranscriptRevision
revision = record {
  id = "tr_1";
  session_id = "ses_1";
  number = 1;
  provider = "whisper";
  created_at = 50;
  segments = segment ∷ [];
}

published_once_example :
    ((publish_asr_result none_fails true request published).0 ≡ published)
    × (is_ok ((publish_asr_result none_fails true request published).1) ≡ false)
unfolding publish_asr_result commit_transaction publish_body fail_if_requested publish_rest
    publish_revision publish_segments revision_row succeed is_publishable joined_chunk
    publication_context is_valid_segment snapshot_eq validate_receipt succeed_row mark_job_succeeded
    insert_receipt link_receipt published_segment i64_checked_add is_token update_where changed_by
    find_job max_number insert_revision insert_segment trim_is_empty is_whitespace apply_all
published_once_example =
    published_once earlier none_fails none_fails true true request request empty published
      (some revision) [] refl refl

abbrev edited : List TranscriptSegment
edited = record segment { text = " hello there " } ∷ []

abbrev appended : TranscriptCatalog
appended = (append_revision true "tr_1" 3 "ses_1" "import" (segment ∷ []) empty).0

abbrev revised : TranscriptRevision
revised = record {
  id = "tr_2";
  session_id = "ses_1";
  number = 2;
  provider = "manual";
  created_at = 4;
  segments = record segment { text = "hello there" } ∷ [];
}

append_manual_revision-keeps_example :
    (latest : RevisionRow) × (latest_revision "ses_1" appended.revisions ≡ some latest)
    × (2 ≡ suc latest.number)
    × (map boundaries revised.segments
        ≡ map boundaries (segments_of earlier latest.id appended.segments))
    × (map (λ s. s.text) revised.segments ≡ map (λ s. trim s.text) edited)
    × (all (λ s. not (trim_is_empty s.text)) edited ≡ true)
    × (all is_bound revised.segments ≡ true)
unfolding append_manual_revision_from_latest commit_transaction manual_body latest_revision
    segments_of insert_ordered check_latest check_bindings check_binding is_available_chunk
    derive_segments derive_segment same_boundaries append_revision append_body insert_revision
    insert_segments insert_segment max_number trim trim_start trim_end trim_is_empty is_whitespace
append_manual_revision-keeps_example =
    append_manual_revision-keeps earlier true "tr_2" 4 "ses_1" edited appended
      ((append_manual_revision_from_latest earlier true "tr_2" 4 "ses_1" edited appended).0) revised
      refl

abbrev history : List Change
history =
    publish_result none_fails true request
    ∷ append false "tr_2" 3 "ses_1" "import" (segment ∷ [])
    ∷ append_manual true "tr_3" 4 "ses_1" edited
    ∷ []

apply_all-numbers_example :
    let numbers = numbers_of "ses_1" ((apply_all earlier history empty).revisions) in
    numbers ≡ one_to (length numbers)
apply_all-numbers_example = apply_all-numbers earlier history empty "ses_1" refl
