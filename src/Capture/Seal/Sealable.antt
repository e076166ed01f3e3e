-- ===== src/Capture/Seal/Sealable.antt =====
-- src-tauri/src/capture/seal.rs: what a request and its file have when the chunk can be sealed.
use life_sub.Common.{ℕ, ◌≡◌, refl, true, false, none, List, String, ok, ◌==◌, length, arith}
use life_sub.Capture.Seal.{
  AudioChunk, CaptureChunkTiming, NativeSealIntent, NativeChunkSealRequest, RegularFile, chunk_of,
  chunk_eq, timing_eq, intent_eq, audio_source_eq, validated_names, microphone, system_audio,
  imported, AudioSource,
}
use life_sub.Capture.Seal.Insert.{
  CaptureCatalog, chunk_row, capture_chunk_timing, insert_native_capture_chunk, inserted,
}
use life_sub.Capture.Seal.Places.{after_insert}
use life_sub.Capture.Seal.Steps.{str_eq_refl}

pub eq_refl : (n : ℕ) → (n == n) ≡ true
eq_refl n = ground arith

source_refl : (s : AudioSource) → audio_source_eq s s ≡ true
source_refl microphone = refl
source_refl system_audio = refl
source_refl imported = refl

pub chunk_eq_refl : (c : AudioChunk) → chunk_eq c c ≡ true
unfolding chunk_eq
chunk_eq_refl c =
    rw
      (
        str_eq_refl c.id,
        str_eq_refl c.session_id,
        source_refl c.source,
        str_eq_refl c.path,
        str_eq_refl c.sha256,
      )
      (eq_refl _)

pub timing_eq_refl : (t : CaptureChunkTiming) → timing_eq t t ≡ true
unfolding timing_eq
timing_eq_refl t = rw (str_eq_refl t.chunk_id, str_eq_refl t.capture_source_id) (ground arith)

pub intent_eq_refl : (i : NativeSealIntent) → intent_eq i i ≡ true
unfolding intent_eq
intent_eq_refl i = rw (chunk_eq_refl i.chunk) (timing_eq_refl i.intent_timing)

-- The request's file has the bytes that it names, and the catalog takes the chunk.
pub record IsSealable (sha256 : List ℕ → String) (request : NativeChunkSealRequest)
    (final_name : String) (file : RegularFile) (before : CaptureCatalog) : Type 0 where
  pub has_name : validated_names request.relative_staging_path request.chunk_id ≡ ok final_name
  pub is_captured : audio_source_eq request.source imported ≡ false
  pub same_length : length file.bytes ≡ request.expected_byte_length
  pub same_digest : sha256 file.bytes ≡ request.expected_sha256
  pub same_id : request.timing.chunk_id ≡ request.chunk_id
  pub no_row : chunk_row request.chunk_id before.chunks ≡ none
  pub no_timing : capture_chunk_timing request.chunk_id before.timings ≡ none
  pub is_inserted :
      insert_native_capture_chunk (chunk_of request final_name) request.timing before
      ≡ ok (after_insert request final_name file before, inserted)
