-- ===== src/Capture/Committer.antt =====
-- src-tauri/src/capture/committer.rs: CatalogCaptureCommitter, which makes a request of the sealer for each
-- message that a chunk is sealed. What the sealer answers to a request, what is done after a commit, the clock,
-- and the sum of a time and a number of milliseconds are arguments. A cast `as i64` keeps the bits.
pub mod Paths
pub mod Numbered
mod Tests
use Prim.Native.Char.{Char, code}
use Prim.Native.String.{len}
use life_sub.Common.{
  ℕ, ◌+◌, ◌/◌, ◌^◌, Bool, true, false, not, ◌&&◌, ◌||◌, Option, none, some, List, [], ◌∷◌, String,
  Result, ok, err, ok_or, ◌>>=◌, ◌>>◌, guard, ltb, leb, ◌==◌, if◌then◌else◌, checked_sub,
  is_some_and,
}
use life_sub.Capture.Protocol.Headers.{Source, microphone, system_audio, source_eq, ChunkSealed}
use life_sub.Capture.Coordinator.{
  NativeCaptureStableError, insert, protocol_violation, commit_failed,
}
use life_sub.Capture.Seal.{
  AudioSource, microphone as audio_microphone, system_audio as audio_system, AudioChunk,
  CaptureChunkTiming, NativeChunkSealRequest, NativeChunkSealError, all_codes, strip_prefix,
  strip_suffix,
}
use life_sub.Capture.Committer.Paths.{path_components, file_name, before_dot}

pub record CatalogCaptureCommitter : Type 0 where
  pub session_id : String
  pub source_ids : Source → Option String
  pub sequences : Source → Option ℕ
  pub session_anchor_ns : ℕ

unfoldable pub new_committer : String → (Source → Option String) → ℕ → CatalogCaptureCommitter
new_committer session_id source_ids session_anchor_ns = record {
  session_id = session_id;
  source_ids = source_ids;
  sequences = λ _. none;
  session_anchor_ns = session_anchor_ns;
}

abbrev pub audio_source_of : Source → AudioSource
audio_source_of microphone = audio_microphone
audio_source_of system_audio = audio_system

-- `u8::is_ascii_hexdigit`
abbrev pub is_ascii_hexdigit : ℕ → Bool
is_ascii_hexdigit c = (leb 48 c && leb c 57) || (leb 65 c && leb c 70) || (leb 97 c && leb c 102)

-- A stem that starts with `chk_` has more than four bytes exactly if it has more than four characters.
unfoldable pub chunk_id_from_path : String → Option String
chunk_id_from_path path = elim (file_name path) [
  | none ↦ none
  | some name ↦ elim (strip_suffix ".partial" name) [
    | none ↦ none
    | some stem ↦
        if is_some_and (λ _. true) (strip_prefix "chk_" (before_dot stem))
          && ltb 4 (len (before_dot stem))
        then some (before_dot stem)
        else none
  ]
]

-- The number that a source is at: `entry(source).or_insert(0)`.
abbrev pub sequence_at : CatalogCaptureCommitter → Source → ℕ
sequence_at c s = elim (c.sequences s) [ none ↦ 0 | some n ↦ n ]

abbrev pub i64_max : ℕ
i64_max = 9223372036854775807

abbrev pub with_sequence : CatalogCaptureCommitter → Source → ℕ → CatalogCaptureCommitter
with_sequence c s n = record c { sequences = insert s (some n) c.sequences }

abbrev pub is_digest : String → Bool
is_digest digest = len digest == 64 && all_codes is_ascii_hexdigit digest

module _ (add_milliseconds : ℕ → ℕ → ℕ) (now : ℕ) where
  -- The request for a message, once its source has an identity and a number.
  unfoldable pub request_for :
      CatalogCaptureCommitter
      → ChunkSealed
      → String
      → ℕ
      → Result NativeCaptureStableError NativeChunkSealRequest
  request_for c sealed source_id current = do
    chunk_id ← ok_or (chunk_id_from_path sealed.relative_staging_path) protocol_violation
    relative_start ←
        ok_or (checked_sub sealed.start_host_time c.session_anchor_ns) protocol_violation
    relative_end ← ok_or (checked_sub sealed.end_host_time c.session_anchor_ns) protocol_violation
    guard (is_digest sealed.sha256) protocol_violation
    ok (record {
      relative_staging_path = path_components sealed.relative_staging_path;
      chunk_id = chunk_id;
      session_id = c.session_id;
      source = audio_source_of sealed.source;
      expected_sha256 = sealed.sha256;
      expected_byte_length = sealed.byte_length;
      timing = record {
        chunk_id = chunk_id;
        capture_source_id = source_id;
        source_sequence = current;
        source_sample_start = sealed.start_sample_position;
        source_sample_end = sealed.end_sample_position;
        session_start_ms = relative_start / 1000000;
        session_end_ms = relative_end / 1000000;
        monotonic_start_ns = sealed.start_host_time;
        monotonic_end_ns = sealed.end_host_time;
        utc_start_at = now;
        utc_end_at = add_milliseconds now sealed.duration_ms;
        discontinuity_count = 0;
        dropped_frame_count = 0;
        created_at = now;
      };
    })

  -- The committer that a message leaves, with the request that the sealer is handed.
  unfoldable pub request_of :
      ChunkSealed
      → CatalogCaptureCommitter
      → CatalogCaptureCommitter × Result NativeCaptureStableError NativeChunkSealRequest
  request_of sealed c = elim (c.source_ids sealed.source) [
    | none ↦ (c, err protocol_violation)
    | some source_id ↦
        if sequence_at c sealed.source == i64_max
        then (with_sequence c sealed.source i64_max, err protocol_violation)
        else (
          with_sequence c sealed.source (sequence_at c sealed.source + 1),
          request_for c sealed source_id (sequence_at c sealed.source),
        )
  ]

  module _ (seal : NativeChunkSealRequest → Result NativeChunkSealError AudioChunk)
      (after_commit : AudioChunk → Result String (Unit {0})) where
    -- The calls of `map_err` at the end: either failure is a failed commit.
    unfoldable pub finish_commit :
        Result NativeCaptureStableError NativeChunkSealRequest
        → Result NativeCaptureStableError (Unit {0})
    finish_commit (err e) = err e
    finish_commit (ok request) = elim (seal request) [
      | err _ ↦ err commit_failed
      | ok chunk ↦ elim (after_commit chunk) [ err _ ↦ err commit_failed | ok _ ↦ ok tt ]
    ]

    unfoldable pub commit :
        ChunkSealed
        → CatalogCaptureCommitter
        → CatalogCaptureCommitter × Result NativeCaptureStableError (Unit {0})
    commit sealed c = ((request_of sealed c).0, finish_commit ((request_of sealed c).1))
