-- ===== src/Capture/Seal/Tests.antt =====
-- src-tauri/src/capture/seal.rs: attempts to seal one chunk.
use life_sub.Common.{
  ℕ, ◌≡◌, refl, ◌⊎◌, Bool, true, none, some, List, [], ◌∷◌, String, ok, err, ltb, str_is_empty,
}
use life_sub.Capture.Seal.{
  microphone, normal, CaptureChunkTiming, NativeChunkSealRequest, RegularFile, chunk_of,
  validated_names, final_name_of, is_native_chunk_id, is_native_final_name, strip_prefix,
  strip_suffix, rsplit_once_dot, all_codes,
}
use life_sub.Capture.Seal.Insert.{
  CaptureCatalog, insert_conflict, chunk_row, capture_chunk_timing, capture_source,
  insert_native_capture_chunk, insert_new_chunk, is_sequence_taken, validated_native_capture,
  native_chunk_path_matches,
}
use life_sub.Capture.Seal.Files.{World}
use life_sub.Capture.Seal.Sealer.{seal}
use life_sub.Capture.Seal.Places.{Place, waiting, settled, At, IsReliable}
use life_sub.Capture.Seal.Sealable.{IsSealable}
use life_sub.Capture.Seal.Attempts.{after_attempts, seal_keeps_file, seal-after_attempts}

abbrev timing : CaptureChunkTiming
timing = record {
  chunk_id = "chk_a";
  capture_source_id = "q";
  source_sequence = 0;
  source_sample_start = 0;
  source_sample_end = 160;
  session_start_ms = 0;
  session_end_ms = 10;
  monotonic_start_ns = 5;
  monotonic_end_ns = 15;
  utc_start_at = 100;
  utc_end_at = 110;
  discontinuity_count = 0;
  dropped_frame_count = 0;
  created_at = 100;
}

abbrev request : NativeChunkSealRequest
request = record {
  relative_staging_path = normal "chk_a.caf.partial" ∷ [];
  chunk_id = "chk_a";
  session_id = "s";
  source = microphone;
  expected_sha256 = "d";
  expected_byte_length = 2;
  timing = timing;
}

abbrev file : RegularFile
file = record { identity = 7; bytes = 1 ∷ 2 ∷ [] }

abbrev before : CaptureCatalog
before = record {
  chunks = [];
  timings = [];
  sources = record { source_id = "q"; source_session = "s"; source_kind = microphone } ∷ [];
}

abbrev sha256 : List ℕ → String
sha256 bytes = "d"

sealable : IsSealable sha256 request "chk_a.caf" file before
unfolding validated_names final_name_of is_native_chunk_id is_native_final_name strip_prefix
    strip_suffix rsplit_once_dot all_codes chunk_row capture_chunk_timing capture_source
    insert_native_capture_chunk insert_new_chunk is_sequence_taken validated_native_capture
    native_chunk_path_matches str_is_empty
sealable = record {
  has_name = refl;
  is_captured = refl;
  same_length = refl;
  same_digest = refl;
  same_id = refl;
  no_row = refl;
  no_timing = refl;
  is_inserted = refl;
}

-- The next chunk of a source may not have the number of an earlier one.
sequence_taken :
    insert_native_capture_chunk
      (record (chunk_of request "chk_b.caf") { id = "chk_b" })
      (record timing { chunk_id = "chk_b" })
      (record before { timings = timing ∷ [] })
    ≡ err insert_conflict
unfolding chunk_row capture_chunk_timing capture_source insert_native_capture_chunk insert_new_chunk
    is_sequence_taken validated_native_capture native_chunk_path_matches strip_prefix all_codes
    str_is_empty
sequence_taken = refl

abbrev staged : World
staged = record {
  staged = some file;
  published = none;
  intent = none;
  temps = 0;
  catalog = before;
  calls = 0;
}

-- An attempt that is stopped at its fortieth call.
abbrev stopped : ℕ → Bool
stopped n = ltb n 40

seal_keeps_file_example :
    (((seal sha256 stopped request staged).1 ≡ ok (chunk_of request "chk_a.caf"))
      × At request "chk_a.caf" file before settled ((seal sha256 stopped request staged).0))
    ⊎ ((q : Place) × At request "chk_a.caf" file before q ((seal sha256 stopped request staged).0)
        × (IsReliable stopped → ⊥))
unfolding At
seal_keeps_file_example =
    seal_keeps_file sha256 request "chk_a.caf" file before sealable stopped waiting staged
      (refl, refl, refl, refl)

seal-after_attempts_example :
    ((seal sha256 (λ _. true) request (after_attempts sha256 request (stopped ∷ []) staged)).1
      ≡ ok (chunk_of request "chk_a.caf"))
    × At request "chk_a.caf" file before settled
        ((seal sha256 (λ _. true) request (after_attempts sha256 request (stopped ∷ []) staged)).0)
unfolding At
seal-after_attempts_example =
    seal-after_attempts sha256 request "chk_a.caf" file before sealable (stopped ∷ []) (λ _. true)
      staged (refl, refl, refl, refl) (λ _. refl)
