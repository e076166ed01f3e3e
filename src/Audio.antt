-- ===== src/Audio.antt =====
-- src-tauri/src/asr/audio.rs: sample ranges, their images in milliseconds and in source frames, and
-- the budget of a decoding run. `usize` is `u64`. The decoder and the resampler are other packages.
pub mod Ranges
pub mod Budget
pub mod Decode
mod Tests
use life_sub.Common.{
  ℕ, ◌+◌, ◌-◌, ◌*◌, ◌/◌, min, Bool, ◌&&◌, ◌||◌, Option, none, some, Result, ok, err, ◌>>=◌, ◌>>◌,
  guard, ok_or, ltb, leb, ◌==◌, not, if◌then◌else◌, is_some_and, checked_add, checked_mul,
  checked_sub, try_from,
}

abbrev pub work_sample_rate_hz : ℕ
work_sample_rate_hz = 16000

abbrev pub max_decoded_audio_duration_seconds : ℕ
max_decoded_audio_duration_seconds = 24 * 60 * 60

pub data AudioPreparationError : Type 0 where
  unsupported_or_corrupt_audio : AudioPreparationError
  invalid_sample_rate : AudioPreparationError
  invalid_range : AudioPreparationError
  invalid_detector_cores : AudioPreparationError
  arithmetic_overflow : AudioPreparationError
  index_out_of_range : AudioPreparationError
  resample_failed : AudioPreparationError
  detector_failed : AudioPreparationError
  invalid_vad_config : AudioPreparationError
  resource_limit_exceeded : AudioPreparationError
  allocation_failed : AudioPreparationError

abbrev pub AudioResult : Type 0 → Type 0
AudioResult = Result AudioPreparationError

pub record SampleRange : Type 0 where
  pub start : ℕ
  pub end : ℕ

unfoldable pub new_range : ℕ → ℕ → AudioResult SampleRange
new_range start end =
    if leb end start then err invalid_range else ok (record { start = start; end = end })

unfoldable pub checked_len : SampleRange → AudioResult ℕ
unfolding checked_sub
checked_len r = do
  length ← ok_or (checked_sub r.end r.start) invalid_range
  if length == 0 then err invalid_range else ok length

pub record MillisecondRange : Type 0 where
  pub start_ms : ℕ
  pub end_ms : ℕ

unfoldable pub validate_range : SampleRange → ℕ → AudioResult (Unit {0})
validate_range r total_frames =
    if leb r.end r.start || ltb total_frames r.end then err invalid_range else ok tt

unfoldable pub checked_ceil_ratio : ℕ → ℕ → ℕ → AudioResult ℕ
unfolding checked_mul checked_sub checked_add
checked_ceil_ratio value multiplier denominator = do
  guard (not (denominator == 0)) invalid_sample_rate
  numerator ← ok_or (checked_mul value multiplier) arithmetic_overflow
  adjustment ← ok_or (checked_sub denominator 1) arithmetic_overflow
  adjusted ← ok_or (checked_add numerator adjustment) arithmetic_overflow
  ok (adjusted / denominator)

unfoldable pub max_source_frames : ℕ → AudioResult ℕ
unfolding checked_mul
max_source_frames sample_rate_hz = do
  guard (not (sample_rate_hz == 0)) invalid_sample_rate
  ok_or (checked_mul sample_rate_hz max_decoded_audio_duration_seconds) resource_limit_exceeded

unfoldable pub checked_interleaved_samples : ℕ → ℕ → AudioResult ℕ
unfolding checked_mul try_from
checked_interleaved_samples frames channels = do
  channels ← ok_or (try_from channels) resource_limit_exceeded
  samples ← ok_or (checked_mul frames channels) resource_limit_exceeded
  ok_or (try_from samples) resource_limit_exceeded

unfoldable pub checked_sample_index : ℕ → ℕ → AudioResult ℕ
unfolding try_from
checked_sample_index index sample_count = do
  index ← ok_or (try_from index) index_out_of_range
  if leb sample_count index then err index_out_of_range else ok index

unfoldable pub validate_declared_source_frames : Option ℕ → ℕ → AudioResult (Unit {0})
unfolding max_source_frames
validate_declared_source_frames declared_frames sample_rate_hz = do
  max_frames ← max_source_frames sample_rate_hz
  if is_some_and (ltb max_frames) declared_frames then err resource_limit_exceeded else ok tt

unfoldable pub resampled_frame_count : ℕ → ℕ → AudioResult ℕ
unfolding max_source_frames checked_ceil_ratio checked_mul try_from
resampled_frame_count source_frames source_rate_hz = do
  guard (not (source_rate_hz == 0)) invalid_sample_rate
  limit ← max_source_frames source_rate_hz
  guard (leb source_frames limit) resource_limit_exceeded
  output_frames ← checked_ceil_ratio source_frames work_sample_rate_hz source_rate_hz
  max_work_frames ←
      ok_or (checked_mul work_sample_rate_hz max_decoded_audio_duration_seconds)
        resource_limit_exceeded
  guard (leb output_frames max_work_frames) resource_limit_exceeded
  ok_or (try_from output_frames) resource_limit_exceeded

unfoldable pub sample_range_to_millis : SampleRange → ℕ → ℕ → AudioResult MillisecondRange
unfolding validate_range checked_ceil_ratio checked_mul
sample_range_to_millis range sample_rate_hz total_frames = do
  validate_range range total_frames
  guard (not (sample_rate_hz == 0)) invalid_sample_rate
  scaled ← ok_or (checked_mul range.start 1000) arithmetic_overflow
  let start_ms = scaled / sample_rate_hz
  end_ms ← checked_ceil_ratio range.end 1000 sample_rate_hz
  if leb end_ms start_ms
      then err invalid_range
      else ok (record { start_ms = start_ms; end_ms = end_ms })

unfoldable pub work_range_to_original_frames : SampleRange → ℕ → ℕ → AudioResult SampleRange
unfolding new_range validate_range checked_ceil_ratio checked_mul
work_range_to_original_frames range source_rate_hz source_frames = do
  guard (not (source_rate_hz == 0)) invalid_sample_rate
  scaled ← ok_or (checked_mul range.start source_rate_hz) arithmetic_overflow
  let start = scaled / work_sample_rate_hz
  end ← checked_ceil_ratio range.end source_rate_hz work_sample_rate_hz
  mapped ← new_range start (min end source_frames)
  validate_range mapped source_frames
  ok mapped

pub record DecodeResourceBudget : Type 0 where
  pub channels : ℕ
  pub max_source_frames : ℕ
  pub max_interleaved_samples : ℕ
  pub source_frames : ℕ
  pub interleaved_samples : ℕ

unfoldable pub new_budget : ℕ → ℕ → AudioResult DecodeResourceBudget
unfolding max_source_frames checked_interleaved_samples
new_budget sample_rate_hz channels = do
  guard (not (sample_rate_hz == 0)) invalid_sample_rate
  guard (not (channels == 0)) unsupported_or_corrupt_audio
  frames ← max_source_frames sample_rate_hz
  samples ← checked_interleaved_samples frames channels
  ok (record {
    channels = channels;
    max_source_frames = frames;
    max_interleaved_samples = samples;
    source_frames = 0;
    interleaved_samples = 0;
  })

unfoldable pub accept_packet : DecodeResourceBudget → ℕ → ℕ → AudioResult DecodeResourceBudget
unfolding checked_interleaved_samples checked_add
accept_packet b packet_frames packet_samples = do
  guard (not (packet_frames == 0 || packet_samples == 0)) unsupported_or_corrupt_audio
  expected ← checked_interleaved_samples packet_frames b.channels
  guard (packet_samples == expected) unsupported_or_corrupt_audio
  frames ← ok_or (checked_add b.source_frames packet_frames) resource_limit_exceeded
  samples ← ok_or (checked_add b.interleaved_samples packet_samples) resource_limit_exceeded
  guard (leb frames b.max_source_frames && leb samples b.max_interleaved_samples)
      resource_limit_exceeded
  ok (record b { source_frames = frames; interleaved_samples = samples })
