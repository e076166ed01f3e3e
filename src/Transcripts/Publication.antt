-- ===== src/Transcripts/Publication.antt =====
-- src-tauri/src/catalog/publication.rs: publish_asr_result, which stores what a job has transcribed. Its failure
-- points are the six statements that may fail in the database, `injected`, beside a key that is in use.
use life_sub.Common.{
  ℕ, Bool, true, false, not, ◌&&◌, ◌||◌, Option, none, some, List, [], ◌∷◌, ◌++◌, String, ok, err,
  ◌>>=◌, ◌>>◌, guard, ltb, ◌==◌, if◌then◌else◌, any, ok_or, is_some_and, str_eq, trim_is_empty,
}
use life_sub.Capture.Seal.{AudioSource, audio_source_eq}
use life_sub.Capture.Seal.Insert.{is_negative, i64_lt}
use life_sub.Jobs.{
  JobState, transcribing, succeeded, JobSnapshot, AsrJob, update_where, changed_by, find_job,
  is_null, is_token,
}
use life_sub.Jobs.Coordinator.{ClaimToken}
use life_sub.Transcripts.{
  TranscriptSegment, ChunkRow, ReceiptRow, TranscriptCatalog, publication_cancelled,
  publication_lost, publication_failed, invalid_result, PublicationResult,
}
use life_sub.Transcripts.Integers.{i64_checked_add}

pub data PublicationFailurePoint : Type 0 where
  at_receipt at_revision at_receipt_link at_segment at_search at_succeed : PublicationFailurePoint

pub record TranscriptSegmentPublication : Type 0 where
  pub id : String
  pub chunk_start_ms : ℕ
  pub chunk_end_ms : ℕ
  pub source : AudioSource
  pub text : String

pub record PublicationContext : Type 0 where
  pub session_id : String
  pub chunk_id : String
  pub chunk_offset_ms : ℕ
  pub chunk_duration_ms : Option ℕ
  pub chunk_source : AudioSource
  pub provider : String
  pub model_id : String
  pub manifest_version : String
  pub archive_sha256 : String
  pub snapshot : JobSnapshot
  pub input_sha256 : String

abbrev pub is_transcribing : JobState → Bool
is_transcribing transcribing = true
is_transcribing _ = false

-- A job that the token may end: it transcribes, with a lease, and nobody has asked to cancel it.
unfoldable pub is_publishable : ClaimToken → ℕ → AsrJob → Bool
is_publishable token now j =
    is_token token.job_id token.claimed_by token.claim_generation j
    && is_transcribing j.state
    && is_null j.cancel_requested_at
    && is_some_and (ltb now) j.lease_expires_at

unfoldable pub is_cancelled_late : ClaimToken → ℕ → AsrJob → Bool
is_cancelled_late token now j =
    is_token token.job_id token.claimed_by token.claim_generation j
    && is_transcribing j.state
    && not (is_null j.cancel_requested_at)
    && is_some_and (ltb now) j.lease_expires_at

unfoldable pub joined_chunk : String → List ChunkRow → Option ChunkRow
joined_chunk id [] = none
joined_chunk id (c ∷ cs) = if str_eq c.id id then some c else joined_chunk id cs

abbrev pub context_of : AsrJob → ChunkRow → PublicationContext
context_of j c = record {
  session_id = j.session_id;
  chunk_id = j.chunk_id;
  chunk_offset_ms = c.session_offset_ms;
  chunk_duration_ms = c.duration_ms;
  chunk_source = c.source;
  provider = j.provider;
  model_id = j.model_id;
  manifest_version = j.manifest_version;
  archive_sha256 = j.archive_sha256;
  snapshot = j.snapshot;
  input_sha256 = j.input_sha256;
}

-- The key of a job makes the first row that is selected the only one.
unfoldable pub publication_context :
    ClaimToken → ℕ → TranscriptCatalog → PublicationResult PublicationContext
publication_context token now c =
    let refused = err (
      if any (is_cancelled_late token now) c.jobs
      then publication_cancelled
      else publication_lost) in
    elim (find_job (is_publishable token now) c.jobs) [
      | none ↦ refused
      | some j ↦ elim (joined_chunk j.chunk_id c.chunks) [
        | none ↦ refused
        | some row ↦ ok (context_of j row)
      ]
    ]

unfoldable pub is_valid_segment : TranscriptSegmentPublication → Bool
is_valid_segment s = not (
    trim_is_empty s.id
    || trim_is_empty s.text
    || is_negative s.chunk_start_ms
    || not (i64_lt s.chunk_start_ms s.chunk_end_ms))

abbrev pub within_chunk : Option ℕ → TranscriptSegmentPublication → Bool
within_chunk none s = true
within_chunk (some duration) s = not (i64_lt duration s.chunk_end_ms)

abbrev pub option_eq : Option String → Option String → Bool
option_eq none none = true
option_eq (some a) (some b) = str_eq a b
option_eq _ _ = false

unfoldable pub snapshot_eq : JobSnapshot → JobSnapshot → Bool
snapshot_eq a b =
    str_eq a.required_file_hashes_json b.required_file_hashes_json
    && str_eq a.model_source_json b.model_source_json
    && option_eq a.vad_model_id b.vad_model_id
    && option_eq a.vad_manifest_version b.vad_manifest_version
    && option_eq a.vad_archive_sha256 b.vad_archive_sha256
    && option_eq a.vad_required_file_hashes_json b.vad_required_file_hashes_json
    && str_eq a.parameters_json b.parameters_json

unfoldable pub validate_receipt : ReceiptRow → PublicationContext → Bool
validate_receipt receipt context =
    str_eq receipt.chunk_id context.chunk_id
    && str_eq receipt.provider context.provider
    && str_eq receipt.model_id context.model_id
    && str_eq receipt.manifest_version context.manifest_version
    && str_eq receipt.archive_sha256 context.archive_sha256
    && snapshot_eq receipt.snapshot context.snapshot
    && str_eq receipt.input_sha256 context.input_sha256

unfoldable pub succeed_row : ℕ → AsrJob → AsrJob
succeed_row now j = record j {
  state = succeeded;
  claimed_by = none;
  lease_expires_at = none;
  error_code = none;
  error_summary = none;
  updated_at = now;
}

unfoldable pub mark_job_succeeded :
    ClaimToken → ℕ → TranscriptCatalog → PublicationResult TranscriptCatalog
mark_job_succeeded token now c = do
  guard (changed_by (is_publishable token now) c.jobs == 1) publication_lost
  ok (record c { jobs = update_where (is_publishable token now) (succeed_row now) c.jobs })

-- The keys of the table: `id` and `job_id`.
unfoldable pub insert_receipt :
    String → ReceiptRow → TranscriptCatalog → PublicationResult TranscriptCatalog
insert_receipt new_id receipt c = do
  guard
      (not (
        any (λ r. str_eq r.receipt_id new_id || str_eq r.receipt.job_id receipt.job_id) c.receipts))
      publication_failed
  ok (record c {
    receipts = c.receipts ++ (record { receipt_id = new_id; receipt = receipt }) ∷ [];
  })

-- The key of the table: `receipt_id`.
unfoldable pub link_receipt :
    String → String → TranscriptCatalog → PublicationResult TranscriptCatalog
link_receipt revision receipt c = do
  guard (not (any (λ l. str_eq l.1 receipt) c.revision_receipts)) publication_failed
  ok (record c { revision_receipts = c.revision_receipts ++ (revision, receipt) ∷ [] })

-- The segment that is published, in the time of the session.
unfoldable pub published_segment :
    PublicationContext → TranscriptSegmentPublication → PublicationResult TranscriptSegment
published_segment context s = do
  guard (audio_source_eq s.source context.chunk_source) (invalid_result "segment source mismatch")
  start ←
      ok_or (i64_checked_add context.chunk_offset_ms s.chunk_start_ms)
        (invalid_result "segment timestamp overflow")
  end ←
      ok_or (i64_checked_add context.chunk_offset_ms s.chunk_end_ms)
        (invalid_result "segment timestamp overflow")
  ok (record {
    id = s.id;
    start_ms = start;
    end_ms = end;
    source = s.source;
    text = s.text;
    chunk_id = some context.chunk_id;
    chunk_start_ms = some s.chunk_start_ms;
    chunk_end_ms = some s.chunk_end_ms;
  })
