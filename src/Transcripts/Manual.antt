-- ===== src/Transcripts/Manual.antt =====
-- src-tauri/src/catalog.rs: append_manual_revision_from_latest, the revision that a person makes of the latest one.
-- `before` compares two texts as SQLite does.
use life_sub.Common.{
  ℕ, suc, Bool, true, false, not, ◌&&◌, ◌||◌, Option, none, some, List, [], ◌∷◌, String, ok, err,
  ◌>>=◌, ◌>>◌, guard, ltb, ◌==◌, if◌then◌else◌, any, all, ok_or, is_empty, length, str_eq,
  trim_is_empty, trim,
}
use life_sub.Capture.Seal.{audio_source_eq}
use life_sub.Capture.Seal.Insert.{is_negative, i64_lt}
use life_sub.Transcripts.{
  TranscriptSegment, TranscriptRevision, RevisionRow, SegmentRow, ChunkRow, TranscriptCatalog,
  PublicationError, invalid_result, PublicationResult, insert_revision, insert_segments,
  commit_transaction,
}
use life_sub.Transcripts.Integers.{i64_saturating_sub}

abbrev pub no_segment : PublicationError
no_segment = invalid_result "manual revision requires at least one segment"

abbrev pub no_revision : PublicationError
no_revision = invalid_result "manual revision requires an existing revision"

abbrev pub not_covered : PublicationError
not_covered = invalid_result "manual revision must cover every latest segment"

-- `ORDER BY number DESC LIMIT 1` among the revisions of a session.
unfoldable pub latest_revision : String → List RevisionRow → Option RevisionRow
latest_revision session [] = none
latest_revision session (r ∷ rs) =
    let rest = latest_revision session rs in
    if str_eq r.session_id session
    then elim rest [
      | none ↦ some r
      | some best ↦ some (if ltb best.number r.number then r else best)
    ]
    else rest

abbrev pub is_bound : TranscriptSegment → Bool
is_bound s = elim s.chunk_id [
  | none ↦ false
  | some _ ↦ elim s.chunk_start_ms [
    | none ↦ false
    | some _ ↦ elim s.chunk_end_ms [ none ↦ false | some _ ↦ true ]
  ]
]

abbrev pub is_unbound : TranscriptSegment → Bool
is_unbound s = elim s.chunk_id [
  | some _ ↦ false
  | none ↦ elim s.chunk_start_ms [
    | some _ ↦ false
    | none ↦ elim s.chunk_end_ms [ none ↦ true | some _ ↦ false ]
  ]
]

unfoldable pub is_available_chunk : String → String → ChunkRow → Bool
is_available_chunk session id c = str_eq c.id id && str_eq c.session_id session && c.is_available

-- The loop over bound segments.
unfoldable pub check_binding :
    String → List ChunkRow → TranscriptSegment → PublicationResult (Unit {0})
check_binding session chunks s = elim s.chunk_id [
  | none ↦ ok tt
  | some id ↦ elim s.chunk_start_ms [
    | none ↦ ok tt
    | some start ↦ elim s.chunk_end_ms [
      | none ↦ ok tt
      | some end ↦
          guard (not (is_negative start || not (i64_lt start end)))
            (invalid_result "manual revision contains an invalid chunk time range")
          >> guard (any (is_available_chunk session id) chunks)
              (invalid_result "manual revision references an unavailable or unknown chunk")
    ]
  ]
]

unfoldable pub check_bindings :
    String → List ChunkRow → List TranscriptSegment → PublicationResult (Unit {0})
check_bindings session chunks [] = ok tt
check_bindings session chunks (s ∷ ss) = do
  check_binding session chunks s
  check_bindings session chunks ss

unfoldable pub available_chunks : String → List ChunkRow → List ChunkRow
available_chunks session [] = []
available_chunks session (c ∷ cs) =
    let rest = available_chunks session cs in
    if str_eq c.session_id session && c.is_available then c ∷ rest else rest

-- The one chunk of a session whose segments name none.
unfoldable pub legacy_chunk : String → List ChunkRow → PublicationResult ChunkRow
legacy_chunk session chunks = elim (available_chunks session chunks) [
  | [] ↦ err (
      invalid_result
        "manual revision requires an available chunk before applying legacy chunk fallback")
  | c ∷ cs ↦
      if is_empty cs
      then ok c
      else err (
          invalid_result
            "manual revision requires explicit chunk bindings when legacy segments span multiple chunks")
]

abbrev pub or_else : {A : Type 0} → Option A → Option A → Option A
or_else none b = b
or_else (some a) b = some a

unfoldable pub same_boundaries : TranscriptSegment → TranscriptSegment → Bool
same_boundaries latest edited =
    str_eq latest.id edited.id
    && latest.start_ms == edited.start_ms
    && latest.end_ms == edited.end_ms
    && audio_source_eq latest.source edited.source

abbrev pub chunk_name : Option ChunkRow → Option String
chunk_name none = none
chunk_name (some c) = some c.id

abbrev pub in_chunk : ℕ → Option ChunkRow → Option ℕ
in_chunk time none = none
in_chunk time (some c) = some (i64_saturating_sub time c.session_offset_ms)

unfoldable pub derive_segment :
    Option ChunkRow → TranscriptSegment → TranscriptSegment → PublicationResult TranscriptSegment
derive_segment legacy latest edited = do
  guard (same_boundaries latest edited)
      (invalid_result "manual revision segments must match the latest revision boundaries")
  guard (not (trim_is_empty edited.text))
      (invalid_result "manual revision segments must be non-empty")
  ok (record {
    id = edited.id;
    start_ms = latest.start_ms;
    end_ms = latest.end_ms;
    source = latest.source;
    text = trim edited.text;
    chunk_id = or_else latest.chunk_id (chunk_name legacy);
    chunk_start_ms = or_else latest.chunk_start_ms (in_chunk latest.start_ms legacy);
    chunk_end_ms = or_else latest.chunk_end_ms (in_chunk latest.end_ms legacy);
  })

-- The loop over both lists, which ends with the shorter one.
unfoldable pub derive_segments :
    Option ChunkRow
    → List TranscriptSegment
    → List TranscriptSegment
    → PublicationResult (List TranscriptSegment)
derive_segments legacy [] edited = ok []
derive_segments legacy (l ∷ ls) [] = ok []
derive_segments legacy (l ∷ ls) (e ∷ es) = do
  first ← derive_segment legacy l e
  rest ← derive_segments legacy ls es
  ok (first ∷ rest)

-- The segments are all bound to chunks, and the bindings hold, or none of them is and the session has one chunk.
unfoldable pub check_latest :
    String → List ChunkRow → List TranscriptSegment → PublicationResult (Option ChunkRow)
check_latest session chunks latest = do
  guard (all is_unbound latest || all is_bound latest)
      (invalid_result "manual revision rejects partial or mixed chunk bindings")
  if all is_bound latest then check_bindings session chunks latest else ok tt
  if all is_unbound latest then (legacy_chunk session chunks >>= λ c. ok (some c)) else ok none

-- The row that follows the latest one.
abbrev pub manual_row : String → ℕ → String → RevisionRow → RevisionRow
manual_row new_id now session latest = record {
  id = new_id;
  session_id = session;
  number = suc latest.number;
  provider = "manual";
  created_at = now;
  provenance_status = "manual";
}

module _ (before : String → String → Bool) where
  -- `ORDER BY start_ms, end_ms, id`
  unfoldable pub segment_before : TranscriptSegment → TranscriptSegment → Bool
  segment_before a b =
      i64_lt a.start_ms b.start_ms
      || (a.start_ms == b.start_ms
          && (i64_lt a.end_ms b.end_ms || (a.end_ms == b.end_ms && before a.id b.id)))

  unfoldable pub insert_ordered :
      TranscriptSegment → List TranscriptSegment → List TranscriptSegment
  insert_ordered s [] = s ∷ []
  insert_ordered s (x ∷ xs) =
      let rest = insert_ordered s xs in if segment_before x s then x ∷ rest else s ∷ x ∷ xs

  unfoldable pub segments_of : String → List SegmentRow → List TranscriptSegment
  segments_of revision [] = []
  segments_of revision (r ∷ rs) =
      let rest = segments_of revision rs in
      if str_eq r.revision_id revision then insert_ordered r.segment rest else rest

  unfoldable pub manual_body :
      String
      → ℕ
      → String
      → List TranscriptSegment
      → TranscriptCatalog
      → PublicationResult (TranscriptCatalog × TranscriptRevision)
  manual_body new_id now session segments c = do
    guard (not (is_empty segments)) no_segment
    latest ← ok_or (latest_revision session c.revisions) no_revision
    let latest_segments = segments_of latest.id c.segments
    guard (length latest_segments == length segments) not_covered
    legacy ← check_latest session c.chunks latest_segments
    derived ← derive_segments legacy latest_segments segments
    revised ← insert_revision (manual_row new_id now session latest) c
    done ← insert_segments new_id derived revised
    ok (
      done,
      record {
        id = new_id;
        session_id = session;
        number = suc latest.number;
        provider = "manual";
        created_at = now;
        segments = derived;
      },
    )

  unfoldable pub append_manual_revision_from_latest :
      Bool
      → String
      → ℕ
      → String
      → List TranscriptSegment
      → TranscriptCatalog
      → TranscriptCatalog × PublicationResult TranscriptRevision
  append_manual_revision_from_latest commits new_id now session segments c =
      commit_transaction commits c (manual_body new_id now session segments c)
