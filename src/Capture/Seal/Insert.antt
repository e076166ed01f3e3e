-- ===== src/Capture/Seal/Insert.antt =====
-- src-tauri/src/catalog/capture.rs: the rows of the chunks that a capture seals, and their insertion.
use life_sub.Common.{
  ℕ, ◌+◌, ◌%◌, ◌^◌, Bool, not, ◌&&◌, ◌||◌, Option, none, some, List, [], ◌∷◌, String, Result, ok,
  err, ltb, leb, ◌==◌, if◌then◌else◌, any, str_eq, str_is_empty, is_some_and,
}
use Prim.Native.String.{len}
use life_sub.Capture.Seal.{
  AudioSource, imported, AudioChunk, CaptureChunkTiming, audio_source_eq, chunk_eq, timing_eq,
  strip_prefix, all_codes, is_lower_or_digit,
}

pub record CaptureSourceRecord : Type 0 where
  pub source_id : String
  pub source_session : String
  pub source_kind : AudioSource

pub record CaptureCatalog : Type 0 where
  pub chunks : List AudioChunk
  pub timings : List CaptureChunkTiming
  pub sources : List CaptureSourceRecord

pub data NativeCaptureInsertOutcome : Type 0 where
  inserted existing : NativeCaptureInsertOutcome

pub data NativeCaptureInsertError : Type 0 where
  insert_conflict insert_failed : NativeCaptureInsertError

-- The sign of an `i64`, and its order.
abbrev pub is_negative : ℕ → Bool
is_negative bits = leb (2 ^ 63) bits

abbrev pub i64_lt : ℕ → ℕ → Bool
i64_lt a b = ltb ((a + 2 ^ 63) % 2 ^ 64) ((b + 2 ^ 63) % 2 ^ 64)

unfoldable pub chunk_row : String → List AudioChunk → Option AudioChunk
chunk_row id [] = none
chunk_row id (c ∷ cs) = if str_eq c.id id then some c else chunk_row id cs

unfoldable pub capture_chunk_timing : String → List CaptureChunkTiming → Option CaptureChunkTiming
capture_chunk_timing id [] = none
capture_chunk_timing id (t ∷ ts) =
    if str_eq t.chunk_id id then some t else capture_chunk_timing id ts

unfoldable pub capture_source : String → List CaptureSourceRecord → Option CaptureSourceRecord
capture_source id [] = none
capture_source id (s ∷ ss) = if str_eq s.source_id id then some s else capture_source id ss

unfoldable pub native_chunk_path_matches : AudioChunk → Bool
native_chunk_path_matches chunk =
    is_some_and
      (λ name.
        is_some_and
          (λ suffix.
            is_some_and
              (λ extension.
                not (str_is_empty extension)
                && leb (len extension) 16
                && all_codes is_lower_or_digit extension)
              (strip_prefix "." suffix))
          (if all_codes (λ c. not (c == 47)) name then strip_prefix chunk.id name else none))
      (strip_prefix "audio/" chunk.path)

-- The duration is the difference of two values of which the smaller is not negative: it does not overflow.
unfoldable pub validated_native_capture : AudioChunk → CaptureChunkTiming → Bool
unfolding native_chunk_path_matches
validated_native_capture chunk timing =
    not (
      audio_source_eq chunk.source imported
      || not (str_eq timing.chunk_id chunk.id)
      || not (native_chunk_path_matches chunk)
      || is_negative timing.source_sequence
      || is_negative timing.source_sample_start
      || i64_lt timing.source_sample_end timing.source_sample_start
      || is_negative timing.session_start_ms
      || i64_lt timing.session_end_ms timing.session_start_ms
      || is_negative timing.monotonic_start_ns
      || i64_lt timing.monotonic_end_ns timing.monotonic_start_ns
      || is_negative timing.discontinuity_count
      || is_negative timing.dropped_frame_count)
    && ltb chunk.byte_length (2 ^ 63)

abbrev pub InsertResult : Type 0
InsertResult = Result NativeCaptureInsertError (CaptureCatalog × NativeCaptureInsertOutcome)

-- The table of timings has at most one row for a number of a source.
unfoldable pub is_sequence_taken : CaptureChunkTiming → List CaptureChunkTiming → Bool
is_sequence_taken timing = any (λ t.
    str_eq t.capture_source_id timing.capture_source_id
    && t.source_sequence == timing.source_sequence)

-- The two insertions, after the chunk and its timing were not found; a row that a unique key refuses is a conflict.
unfoldable pub insert_new_chunk : AudioChunk → CaptureChunkTiming → CaptureCatalog → InsertResult
unfolding capture_source is_sequence_taken
insert_new_chunk chunk timing catalog =
    if any (λ c. str_eq c.path chunk.path) catalog.chunks
    then err insert_conflict
    else (elim (capture_source timing.capture_source_id catalog.sources) [
      | none ↦ err insert_conflict
      | some source ↦
          if not (str_eq source.source_session chunk.session_id)
            || not (audio_source_eq source.source_kind chunk.source)
            || is_sequence_taken timing catalog.timings
          then err insert_conflict
          else ok (
            record catalog { chunks = chunk ∷ catalog.chunks; timings = timing ∷ catalog.timings },
            inserted,
          )
    ])

-- A failure of the database is `insert_failed`, and is the caller's.
unfoldable pub insert_native_capture_chunk :
    AudioChunk → CaptureChunkTiming → CaptureCatalog → InsertResult
unfolding validated_native_capture chunk_row capture_chunk_timing insert_new_chunk
insert_native_capture_chunk chunk timing catalog =
    if not (validated_native_capture chunk timing)
    then err insert_conflict
    else (elim (chunk_row chunk.id catalog.chunks) [
      | some c ↦ elim (capture_chunk_timing chunk.id catalog.timings) [
        | some t ↦
            if chunk_eq c chunk && timing_eq t timing
            then ok (catalog, existing)
            else err insert_conflict
        | none ↦ err insert_conflict
      ]
      | none ↦ elim (capture_chunk_timing chunk.id catalog.timings) [
        | some t ↦ err insert_conflict
        | none ↦ insert_new_chunk chunk timing catalog
      ]
    ])
