-- ===== src/Audio/Tests.antt =====
-- Runs of audio.rs, and its properties at inputs that meet their conditions.
use life_sub.Common.{
  ℕ, ◌+◌, ◌*◌, ◌≤◌, ◌<◌, ◌≡◌, refl, ◌⊎◌, Bool, true, some, none, List, [], ◌∷◌, ok, err, arith, leb,
  if◌then◌else◌, u64_mod,
}
use life_sub.Common.Floats.{whole_floats}
use life_sub.Audio.{
  SampleRange, MillisecondRange, DecodeResourceBudget, invalid_range, invalid_sample_rate,
  arithmetic_overflow, resource_limit_exceeded, sample_range_to_millis, resampled_frame_count,
  work_range_to_original_frames, accept_packet, new_budget, work_sample_rate_hz,
  max_decoded_audio_duration_seconds,
}
use life_sub.Audio.Ranges.{
  sample_range_to_millis_covers, sample_range_to_millis_refused, work_range-resampled_whole,
}
use life_sub.Audio.Budget.{accept_packet_exact}
use life_sub.Audio.Decode.{
  PacketEvent, packet, Resampler, WorkingAudio, decode_from_file, decode_loop, decode_event,
  decode_packet, take_frames, initial_state, prepare_working_audio, sanitize_and_downmix,
  resample_mono,
}
use life_sub.Audio.Decode.Mono.{decode_from_file_counts}

abbrev clip : SampleRange
clip = record { start = 15; end = 33 }

clip_millis : sample_range_to_millis clip 16000 40 ≡ ok (record { start_ms = 0; end_ms = 3 })
unfolding sample_range_to_millis
clip_millis = refl

sample_range_to_millis_covers_example :
    (m : MillisecondRange) × (sample_range_to_millis clip 16000 40 ≡ ok m)
    × (m.start_ms * 16000 ≤ 15 * 1000)
    × (15 * 1000 < m.start_ms * 16000 + 16000)
    × (33 * 1000 ≤ m.end_ms * 16000)
    × (m.end_ms * 16000 < 33 * 1000 + 16000)
sample_range_to_millis_covers_example =
    sample_range_to_millis_covers clip 16000 40 (omega arith) (omega arith) (omega arith)
      (omega arith)

sample_range_to_millis_refused_example :
    ((invalid_range ≡ invalid_range) × ((33 ≤ 15) ⊎ (20 < 33)))
    ⊎ ((invalid_range ≡ invalid_sample_rate) × (◌≡◌ {A = ℕ} 16000 0))
    ⊎ ((invalid_range ≡ arithmetic_overflow) × (u64_mod < 33 * 1000 + 16000))
unfolding sample_range_to_millis
sample_range_to_millis_refused_example =
    sample_range_to_millis_refused clip 16000 20 invalid_range refl

work_range-resampled_whole_example :
    (count : ℕ) × (resampled_frame_count 1000 44100 ≡ ok count)
    × (work_range_to_original_frames (record { start = 0; end = count }) 44100 1000
        ≡ ok (record { start = 0; end = 1000 }))
work_range-resampled_whole_example =
    work_range-resampled_whole 1000 44100 (omega arith) (omega arith) (omega arith) (omega arith)

abbrev almost_full : DecodeResourceBudget
almost_full = record {
  channels = 2;
  max_source_frames = 86400;
  max_interleaved_samples = 172800;
  source_frames = 86390;
  interleaved_samples = 172780;
}

accept_packet_exact_example : accept_packet almost_full 11 (11 * 2) ≡ (
    if leb (86390 + 11) 86400
    then ok
        (record almost_full { source_frames = 86390 + 11; interleaved_samples = 172780 + 11 * 2 })
    else err resource_limit_exceeded)
accept_packet_exact_example =
    accept_packet_exact 1 almost_full 11 (omega arith) (omega arith) (omega arith)

abbrev roomy : ℕ → Bool
roomy n = true

abbrev no_resampler : Resampler ℕ
no_resampler = record { needed_output = λ _ _. none; process = λ _ _. none }

-- Three packets, one of another track.
abbrev recording : List (PacketEvent ℕ)
recording =
    packet 7 (
      some (record {
        rate = 16000;
        channels = 2;
        frames = 2;
        samples_interleaved = 4;
        samples = 0 ∷ 2 ∷ 0 ∷ 0 ∷ [];
      }))
    ∷ packet 3 none
    ∷ packet 7 (
        some (record {
          rate = 16000;
          channels = 2;
          frames = 1;
          samples_interleaved = 2;
          samples = 6 ∷ 6 ∷ [];
        }))
    ∷ []

abbrev prepared : WorkingAudio ℕ
prepared = record {
  samples = 1 ∷ 0 ∷ 1 ∷ [];
  sample_rate_hz = 16000;
  source_sample_rate_hz = 16000;
  source_channels = 2;
  source_frames = 3;
  duration_ms = 1;
}

recording-prepared : decode_from_file whole_floats roomy no_resampler 7 recording ≡ ok prepared
unfolding decode_from_file decode_loop initial_state decode_event decode_packet take_frames
    accept_packet new_budget prepare_working_audio sanitize_and_downmix resample_mono
    resampled_frame_count
recording-prepared = refl

decode_from_file_counts_example :
    (0 < 3)
    × (3 ≤ 16000 * max_decoded_audio_duration_seconds)
    × (◌≡◌ {A = ℕ} 16000 work_sample_rate_hz)
    × (resampled_frame_count 3 16000 ≡ ok 3)
    × (3 * 1000 ≤ 1 * 16000)
    × (1 * 16000 < 3 * 1000 + 16000)
decode_from_file_counts_example =
    decode_from_file_counts whole_floats roomy no_resampler 7 recording prepared
      (refl, (tt, (refl, tt))) recording-prepared
