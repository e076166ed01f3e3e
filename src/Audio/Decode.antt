-- ===== src/Audio/Decode.antt =====
-- src-tauri/src/asr/audio.rs: the loop of `decode_from_file`, the mix to one channel and the change of
-- rate. The packets that the decoder delivers, the room for a reservation and the resampler are
-- arguments of the definitions.
pub mod Packets
pub mod Mono
use life_sub.Common.{
  ℕ, zero, suc, ◌+◌, ◌*◌, ◌%◌, ◌/◌, Bool, not, ◌||◌, Option, none, some, List, [], ◌∷◌, ◌++◌, map,
  ok, err, ◌>>=◌, ◌>>◌, guard, ok_or, ◌==◌, if◌then◌else◌, is_some_and, length, is_empty, take,
  drop, checked_mul, try_from,
}
use mathlib.Core.List.{foldl}
use life_sub.Common.Floats.{Floats}
use life_sub.Audio.{
  AudioResult, unsupported_or_corrupt_audio, invalid_sample_rate, resample_failed,
  resource_limit_exceeded, allocation_failed, DecodeResourceBudget, new_budget, accept_packet,
  resampled_frame_count, checked_ceil_ratio, work_sample_rate_hz,
}

-- A decoded packet: its header, the count that `samples_interleaved` reports, and the samples that
-- `copy_to_slice_interleaved` writes.
pub record Decoded (F32 : Type 0) : Type 0 where
  pub rate : ℕ
  pub channels : ℕ
  pub frames : ℕ
  pub samples_interleaved : ℕ
  pub samples : List F32

-- What one call of `next_packet`, and of `decode` on its packet, gives.
pub data PacketEvent (F32 : Type 0) : Type 0 where
  unreadable : PacketEvent F32
  packet : ℕ → Option (Decoded F32) → PacketEvent F32

pub record DecodeState (F32 : Type 0) : Type 0 where
  pub source_rate : Option ℕ
  pub source_channels : Option ℕ
  pub source_frames : ℕ
  pub interleaved : List F32
  pub resource_budget : Option DecodeResourceBudget

unfoldable pub initial_state : {F32 : Type 0} → DecodeState F32
initial_state = record {
  source_rate = none;
  source_channels = none;
  source_frames = 0;
  interleaved = [];
  resource_budget = none;
}

-- `is_some_and(|expected| expected != value)`
abbrev pub differs : Option ℕ → ℕ → Bool
differs expected value = is_some_and (λ e. not (e == value)) expected

unfoldable pub budget_for : Option DecodeResourceBudget → ℕ → ℕ → AudioResult DecodeResourceBudget
budget_for (some budget) rate channels = ok budget
budget_for none rate channels = new_budget rate channels

unfoldable pub reserve_f32_capacity : (ℕ → Bool) → ℕ → AudioResult (Unit {0})
reserve_f32_capacity room additional = guard (room additional) allocation_failed

module _ {F32 : Type 0} (room : ℕ → Bool) where
  -- The part of the round for a packet that has frames.
  unfoldable pub take_frames : DecodeState F32 → Decoded F32 → AudioResult (DecodeState F32)
  unfolding budget_for reserve_f32_capacity
  take_frames s d = do
    packet_frames ← ok_or (try_from d.frames) resource_limit_exceeded
    packet_samples ← ok_or (checked_mul d.frames d.channels) resource_limit_exceeded
    opened ← budget_for s.resource_budget d.rate d.channels
    budget ← accept_packet opened packet_frames packet_samples
    reserve_f32_capacity room packet_samples
    ok (record s {
      source_frames = budget.source_frames;
      interleaved = s.interleaved ++ d.samples;
      resource_budget = some budget;
    })

  -- A round of the loop for a packet of the track that the decoder has read.
  unfoldable pub decode_packet : DecodeState F32 → Decoded F32 → AudioResult (DecodeState F32)
  decode_packet s d = do
    guard (not (d.rate == 0 || d.channels == 0)) unsupported_or_corrupt_audio
    guard (not (differs s.source_rate d.rate || differs s.source_channels d.channels))
        unsupported_or_corrupt_audio
    let seen = record s { source_rate = some d.rate; source_channels = some d.channels }
    if d.frames == 0
        then (do guard (d.samples_interleaved == 0) unsupported_or_corrupt_audio; ok seen)
        else take_frames seen d

  unfoldable pub decode_event :
      ℕ → DecodeState F32 → PacketEvent F32 → AudioResult (DecodeState F32)
  decode_event track_id s unreadable = err unsupported_or_corrupt_audio
  decode_event track_id s (packet id none) =
      if id == track_id then err unsupported_or_corrupt_audio else ok s
  decode_event track_id s (packet id (some d)) = if id == track_id then decode_packet s d else ok s

  unfoldable pub decode_loop :
      ℕ → DecodeState F32 → List (PacketEvent F32) → AudioResult (DecodeState F32)
  decode_loop track_id s [] = ok s
  decode_loop track_id s (e ∷ es) = decode_event track_id s e >>= λ s'. decode_loop track_id s' es

-- `chunks_exact`: the whole chunks of `size` elements. The fuel is the length, which is enough as each
-- chunk takes an element at least.
unfoldable pub chunks_exact {ℓ} : {A : Type ℓ} → ℕ → ℕ → List A → List (List A)
chunks_exact zero size xs = []
chunks_exact (suc fuel) size xs =
    let rest = take size xs ∷ chunks_exact fuel size (drop size xs) in
    if length (take size xs) == size then rest else []

-- The resampler: its construction for a rate and a length, with the frames of output that it asks for,
-- and the frames that it produces.
pub record Resampler (F32 : Type 0) : Type 0 where
  pub needed_output : ℕ → ℕ → Option ℕ
  pub process : ℕ → List F32 → Option (List F32)

pub record WorkingAudio (F32 : Type 0) : Type 0 where
  pub samples : List F32
  pub sample_rate_hz : ℕ
  pub source_sample_rate_hz : ℕ
  pub source_channels : ℕ
  pub source_frames : ℕ
  pub duration_ms : ℕ

module _ (fl : Floats) where
  open fl use {
    F32, is_finite, from_f32, to_f32, from_int, f64_zero, f32_zero, f64_add, f64_div, clamp_unit,
    clamp_unit_f32,
  }

  unfoldable pub mix_frame : ℕ → List F32 → F32
  mix_frame channels frame = to_f32 (
      clamp_unit (
        f64_div
          (foldl
            (λ sum sample. f64_add sum (if is_finite sample then from_f32 sample else f64_zero))
            f64_zero frame)
          (from_int channels)))

  unfoldable pub clamp_sample : F32 → F32
  clamp_sample sample = if is_finite sample then clamp_unit_f32 sample else f32_zero

module _ (fl : Floats) (room : ℕ → Bool) where
  open fl use {F32}

  unfoldable pub sanitize_and_downmix : List F32 → ℕ → AudioResult (List F32)
  unfolding reserve_f32_capacity mix_frame chunks_exact
  sanitize_and_downmix interleaved channels = do
    guard (not (channels == 0 || is_empty interleaved || not (length interleaved % channels == 0)))
        unsupported_or_corrupt_audio
    reserve_f32_capacity room (length interleaved / channels)
    ok (map (mix_frame fl channels) (chunks_exact (length interleaved) channels interleaved))

  unfoldable pub copy_f32_samples : List F32 → AudioResult (List F32)
  unfolding reserve_f32_capacity
  copy_f32_samples samples = do reserve_f32_capacity room (length samples); ok samples

  unfoldable pub resample_mono : Resampler F32 → List F32 → ℕ → AudioResult (List F32)
  unfolding copy_f32_samples reserve_f32_capacity
  resample_mono resampler samples source_rate_hz = do
    guard (not (source_rate_hz == 0)) invalid_sample_rate
    guard (not (is_empty samples)) unsupported_or_corrupt_audio
    frames ← ok_or (try_from (length samples)) resource_limit_exceeded
    expected_output_frames ← resampled_frame_count frames source_rate_hz
    if source_rate_hz == work_sample_rate_hz then copy_f32_samples samples else (do
      input ← copy_f32_samples samples
      needed ← ok_or (resampler.needed_output source_rate_hz (length samples)) resample_failed
      reserve_f32_capacity room needed
      output ← ok_or (resampler.process source_rate_hz input) resample_failed
      guard (length output == expected_output_frames) resample_failed
      ok (map (clamp_sample fl) output))

  -- What follows the loop in `decode_from_file`.
  unfoldable pub prepare_working_audio :
      Resampler F32 → DecodeState F32 → AudioResult (WorkingAudio F32)
  prepare_working_audio resampler s = do
    rate ← ok_or s.source_rate unsupported_or_corrupt_audio
    channels ← ok_or s.source_channels unsupported_or_corrupt_audio
    guard (not (s.source_frames == 0)) unsupported_or_corrupt_audio
    mono ← sanitize_and_downmix s.interleaved channels
    samples ← resample_mono resampler mono rate
    duration_ms ← checked_ceil_ratio s.source_frames 1000 rate
    ok (record {
      samples = samples;
      sample_rate_hz = work_sample_rate_hz;
      source_sample_rate_hz = rate;
      source_channels = channels;
      source_frames = s.source_frames;
      duration_ms = duration_ms;
    })

  unfoldable pub decode_from_file :
      Resampler F32 → ℕ → List (PacketEvent F32) → AudioResult (WorkingAudio F32)
  decode_from_file resampler track_id packets =
      decode_loop room track_id initial_state packets >>= λ s. prepare_working_audio resampler s
