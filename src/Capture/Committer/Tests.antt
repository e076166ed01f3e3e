-- ===== src/Capture/Committer/Tests.antt =====
-- src-tauri/src/capture/committer.rs: two messages of a microphone, and paths.
use life_sub.Common.{
  ◌+◌, ◌≤◌, ◌-◌, ◌/◌, ◌≡◌, refl, Option, none, some, List, [], ◌∷◌, String, ok, err, checked_sub,
  str_is_empty,
}
use life_sub.Capture.Protocol.Headers.{Source, microphone, system_audio, ChunkSealed}
use life_sub.Capture.Seal.{
  NativeChunkSealRequest, microphone as audio_microphone, other_kind, io, normal, strip_prefix,
  strip_suffix, all_codes, other_component,
}
use life_sub.Capture.Committer.{new_committer, chunk_id_from_path, request_of, request_for, commit}
use life_sub.Capture.Committer.Paths.{path_components, split_slash, file_name, before_dot}
use life_sub.Capture.Committer.Numbered.{Commission, count_source, commit_all, commit_all-numbers}

abbrev digest : String
digest = "00112233445566778899aabbccddeeff00112233445566778899AABBCCDDEEFF"

abbrev sealed : ChunkSealed
sealed = record {
  source = microphone;
  relative_staging_path = "chk_a.wav.partial";
  byte_length = 44;
  sha256 = digest;
  duration_ms = 1000;
  start_sample_position = 0;
  end_sample_position = 48000;
  start_host_time = 5000000;
  end_host_time = 1005000000;
}

abbrev ids : Source → Option String
ids microphone = some "src_1"
ids system_audio = none

-- A first message whose request the sealer refuses.
abbrev earlier : List Commission
earlier =
    record { sealed = sealed; now = 7; seal = λ _. err (io other_kind); after_commit = λ _. ok tt }
    ∷ []

abbrev request : NativeChunkSealRequest
request = record {
  relative_staging_path = normal "chk_a.wav.partial" ∷ [];
  chunk_id = "chk_a";
  session_id = "ses_1";
  source = audio_microphone;
  expected_sha256 = digest;
  expected_byte_length = 44;
  timing = record {
    chunk_id = "chk_a";
    capture_source_id = "src_1";
    source_sequence = 1;
    source_sample_start = 0;
    source_sample_end = 48000;
    session_start_ms = 1;
    session_end_ms = 1001;
    monotonic_start_ns = 5000000;
    monotonic_end_ns = 1005000000;
    utc_start_at = 9;
    utc_end_at = 1009;
    discontinuity_count = 0;
    dropped_frame_count = 0;
    created_at = 9;
  };
}

commit_all-numbers_example :
    (ids microphone ≡ some "src_1")
    × (1 ≡ count_source microphone earlier)
    × (chunk_id_from_path "chk_a.wav.partial" ≡ some "chk_a")
    × (request.timing.chunk_id ≡ request.chunk_id)
    × (4000000 ≤ sealed.start_host_time)
    × (request.timing.session_start_ms ≡ (sealed.start_host_time - 4000000) / 1000000)
    × (4000000 ≤ sealed.end_host_time)
    × (request.timing.session_end_ms ≡ (sealed.end_host_time - 4000000) / 1000000)
unfolding new_committer commit_all commit request_of request_for chunk_id_from_path file_name
    path_components split_slash before_dot strip_prefix strip_suffix all_codes checked_sub
    str_is_empty
commit_all-numbers_example =
    commit_all-numbers (λ now ms. now + ms) earlier "ses_1" ids 4000000 9 sealed request refl

climbing_path :
    path_components "/a//./b/.." ≡ other_component ∷ normal "a" ∷ normal "b" ∷ other_component ∷ []
unfolding path_components split_slash str_is_empty
climbing_path = refl
