-- ===== src/Transcripts.antt =====
-- src-tauri/src/catalog.rs: the revisions of transcripts and their segments, as rows of their tables, and
-- append_revision. A table is the list of its rows in the order of their insertion; an i64 is its bits, as is a
-- point in time. What a new identity is, is an argument; one that is in use makes the statement fail.
pub mod Integers
pub mod Publication
pub mod Publishing
pub mod Manual
pub mod Inserted
pub mod Kept
pub mod Changes
pub mod Numbers
pub mod Published
pub mod Edited
mod Tests
use life_sub.Common.{
  ℕ, suc, ◌+◌, Bool, true, false, not, ◌&&◌, ◌||◌, Option, none, some, List, [], ◌∷◌, ◌++◌, String,
  Result, ok, err, ◌>>=◌, ◌>>◌, guard, ltb, leb, ◌==◌, if◌then◌else◌, any, str_eq,
}
use life_sub.Capture.Seal.{AudioSource}
use life_sub.Jobs.{AsrJob, JobSnapshot}

pub record TranscriptSegment : Type 0 where
  pub id : String
  pub start_ms : ℕ
  pub end_ms : ℕ
  pub source : AudioSource
  pub text : String
  pub chunk_id : Option String
  pub chunk_start_ms : Option ℕ
  pub chunk_end_ms : Option ℕ

pub record TranscriptRevision : Type 0 where
  pub id : String
  pub session_id : String
  pub number : ℕ
  pub provider : String
  pub created_at : ℕ
  pub segments : List TranscriptSegment

pub record RevisionRow : Type 0 where
  pub id : String
  pub session_id : String
  pub number : ℕ
  pub provider : String
  pub created_at : ℕ
  pub provenance_status : String

pub record SegmentRow : Type 0 where
  pub revision_id : String
  pub segment : TranscriptSegment

pub record SearchRow : Type 0 where
  pub segment_id : String
  pub revision_id : String
  pub text : String

pub record ChunkRow : Type 0 where
  pub id : String
  pub session_id : String
  pub source : AudioSource
  pub session_offset_ms : ℕ
  pub duration_ms : Option ℕ
  pub is_available : Bool

-- A provider's receipt, whose columns `data_destination` and `outcome` have one value each.
pub record ReceiptRow : Type 0 where
  pub job_id : String
  pub chunk_id : String
  pub provider : String
  pub model_id : String
  pub manifest_version : String
  pub archive_sha256 : String
  pub snapshot : JobSnapshot
  pub runtime_version : String
  pub runtime_build_id : String
  pub input_sha256 : String
  pub started_at : ℕ
  pub finished_at : ℕ

pub record StoredReceipt : Type 0 where
  pub receipt_id : String
  pub receipt : ReceiptRow

pub record TranscriptCatalog : Type 0 where
  pub jobs : List AsrJob
  pub chunks : List ChunkRow
  pub receipts : List StoredReceipt
  pub revisions : List RevisionRow
  pub revision_receipts : List (String × String)
  pub segments : List SegmentRow
  pub segment_search : List SearchRow

pub data PublicationError : Type 0 where
  publication_cancelled publication_lost publication_failed : PublicationError
  invalid_result : String → PublicationError

abbrev pub PublicationResult : Type 0 → Type 0
PublicationResult = Result PublicationError

-- `COALESCE(MAX(number), 0)` of a session.
unfoldable pub max_number : String → List RevisionRow → ℕ
max_number session [] = 0
max_number session (r ∷ rs) =
    let rest = max_number session rs in
    if str_eq r.session_id session && ltb rest r.number then r.number else rest

-- The keys of the table: `id`, and `session_id` with `number`.
abbrev pub conflicts : RevisionRow → RevisionRow → Bool
conflicts new r =
    str_eq r.id new.id || (str_eq r.session_id new.session_id && r.number == new.number)

unfoldable pub insert_revision :
    RevisionRow → TranscriptCatalog → PublicationResult TranscriptCatalog
insert_revision new c = do
  guard (not (any (conflicts new) c.revisions)) publication_failed
  ok (record c { revisions = c.revisions ++ new ∷ [] })

-- A segment with its text for the search.
unfoldable pub insert_segment :
    String → TranscriptSegment → TranscriptCatalog → PublicationResult TranscriptCatalog
insert_segment revision segment c = do
  guard
      (not (any (λ r. str_eq r.segment.id segment.id && str_eq r.revision_id revision) c.segments))
      publication_failed
  ok (record c {
    segments = c.segments ++ (record { revision_id = revision; segment = segment }) ∷ [];
    segment_search =
        c.segment_search
        ++ (record { segment_id = segment.id; revision_id = revision; text = segment.text }) ∷ [];
  })

unfoldable pub insert_segments :
    String → List TranscriptSegment → TranscriptCatalog → PublicationResult TranscriptCatalog
insert_segments revision [] c = ok c
insert_segments revision (s ∷ ss) c = do
  inserted ← insert_segment revision s c
  insert_segments revision ss inserted

-- The end of a transaction: what it has done is there after a commit, and nothing of it otherwise.
unfoldable pub commit_transaction :
    {A : Type 0}
    → Bool
    → TranscriptCatalog
    → PublicationResult (TranscriptCatalog × A)
    → TranscriptCatalog × PublicationResult A
commit_transaction commits c (err e) = (c, err e)
commit_transaction commits c (ok (done, a)) =
    if commits then (done, ok a) else (c, err publication_failed)

-- The column `provenance_status` has a default.
abbrev pub unverified_row : String → ℕ → String → String → ℕ → RevisionRow
unverified_row new_id now session provider number = record {
  id = new_id;
  session_id = session;
  number = number;
  provider = provider;
  created_at = now;
  provenance_status = "legacy_unverified";
}

-- `commits` is false if the database refuses a statement or the commit for a reason of its own.
unfoldable pub append_body :
    String
    → ℕ
    → String
    → String
    → List TranscriptSegment
    → TranscriptCatalog
    → PublicationResult (TranscriptCatalog × TranscriptRevision)
append_body new_id now session provider segments c = do
  let number = suc (max_number session c.revisions)
  revised ← insert_revision (unverified_row new_id now session provider number) c
  done ← insert_segments new_id segments revised
  ok (
    done,
    record {
      id = new_id;
      session_id = session;
      number = number;
      provider = provider;
      created_at = now;
      segments = segments;
    },
  )

unfoldable pub append_revision :
    Bool
    → String
    → ℕ
    → String
    → String
    → List TranscriptSegment
    → TranscriptCatalog
    → TranscriptCatalog × PublicationResult TranscriptRevision
append_revision commits new_id now session provider segments c =
    commit_transaction commits c (append_body new_id now session provider segments c)
