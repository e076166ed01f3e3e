-- ===== src/Audio/Ranges.antt =====
-- What audio.rs promises of the images of a sample range.
use life_sub.Common.{ℕ, ◌+◌, ◌-◌, ◌*◌, ◌/◌, ◌^◌, ◌≤◌, ◌<◌, ◌≡◌, ok, err, arith, u64_mod, ◌⊎◌}
use life_sub.Audio.{
  AudioPreparationError, invalid_sample_rate, arithmetic_overflow, work_sample_rate_hz,
  max_decoded_audio_duration_seconds, SampleRange, MillisecondRange, invalid_range,
  checked_ceil_ratio, sample_range_to_millis, work_range_to_original_frames, resampled_frame_count,
}

-- The quotient that the code computes is the least number `q` with `value ≤ q * d`.
pub ceil_bounds :
    (value d : ℕ)
    → 0 < d
    → (value ≤ (value + (d - 1)) / d * d) × ((value + (d - 1)) / d * d < value + d)
ceil_bounds value d h = grind arith

pub floor_bounds : (value d : ℕ) → 0 < d → (value / d * d ≤ value) × (value < value / d * d + d)
floor_bounds value d h = grind arith

pub checked_ceil_ratio_lem :
    (value multiplier d : ℕ)
    → 0 < d
    → value * multiplier + d ≤ u64_mod
    → checked_ceil_ratio value multiplier d ≡ ok ((value * multiplier + (d - 1)) / d)
unfolding checked_ceil_ratio
checked_ceil_ratio_lem value multiplier d h b = ground arith

floor-lt-ceil : (a b d : ℕ) → 0 < d → a < b → a / d < (b + (d - 1)) / d
floor-lt-ceil a b d h l = grind (arith, floor_bounds a d h, ceil_bounds b d h)

-- The range of milliseconds covers the range of samples, and is the least that does: a valid range
-- within the recording, at a positive rate and away from the bound of `u64`, has an image whose start
-- is rounded down and whose end is rounded up.
pub sample_range_to_millis_covers :
    (r : SampleRange) (rate total : ℕ)
    → 0 < rate
    → r.start < r.end
    → r.end ≤ total
    → r.end * 1000 + rate ≤ u64_mod
    → (m : MillisecondRange) × (sample_range_to_millis r rate total ≡ ok m)
      × (m.start_ms * rate ≤ r.start * 1000)
      × (r.start * 1000 < m.start_ms * rate + rate)
      × (r.end * 1000 ≤ m.end_ms * rate)
      × (m.end_ms * rate < r.end * 1000 + rate)
unfolding sample_range_to_millis
sample_range_to_millis_covers r rate total pos ordered inside fits = (
  record { start_ms = r.start * 1000 / rate; end_ms = (r.end * 1000 + (rate - 1)) / rate },
  ground (
    arith,
    floor-lt-ceil (r.start * 1000) (r.end * 1000) rate,
    checked_ceil_ratio_lem r.end 1000 rate,
  ),
  (floor_bounds (r.start * 1000) rate pos).0,
  (floor_bounds (r.start * 1000) rate pos).1,
  (ceil_bounds (r.end * 1000) rate pos).0,
  (ceil_bounds (r.end * 1000) rate pos).1,
)

-- A range is refused only for its reason: it is empty, reversed or past the end, the rate is 0, or the
-- product passes the bound of `u64`.
pub sample_range_to_millis_refused :
    (r : SampleRange) (rate total : ℕ) (e : AudioPreparationError)
    → sample_range_to_millis r rate total ≡ err e
    → ((e ≡ invalid_range) × ((r.end ≤ r.start) ⊎ (total < r.end)))
      ⊎ ((e ≡ invalid_sample_rate) × (rate ≡ 0))
      ⊎ ((e ≡ arithmetic_overflow) × (u64_mod < r.end * 1000 + rate))
unfolding sample_range_to_millis
sample_range_to_millis_refused r rate total e h =
    ground (arith, floor-lt-ceil (r.start * 1000) (r.end * 1000) rate)

abbrev work_frames : ℕ → ℕ → ℕ
work_frames frames rate = (frames * work_sample_rate_hz + (rate - 1)) / rate

work_frames-le :
    (frames rate : ℕ)
    → 0 < rate
    → frames ≤ rate * max_decoded_audio_duration_seconds
    → work_frames frames rate ≤ work_sample_rate_hz * max_decoded_audio_duration_seconds
work_frames-le frames rate pos limit =
    grind (arith, ceil_bounds (frames * work_sample_rate_hz) rate pos)

-- A recording within the limit of a day, at a rate that fits 32 bits, has its count of frames at the
-- working rate.
pub resampled_frame_count_lem :
    (frames rate : ℕ)
    → 0 < rate
    → frames ≤ rate * max_decoded_audio_duration_seconds
    → rate < 2 ^ 32
    → resampled_frame_count frames rate ≡ ok (work_frames frames rate)
unfolding resampled_frame_count
resampled_frame_count_lem frames rate pos limit word =
    ground
      (arith, work_frames-le frames rate, checked_ceil_ratio_lem frames work_sample_rate_hz rate)

original_end :
    (frames rate : ℕ) → 0 < rate → frames ≤ (work_frames frames rate * rate + 15999) / 16000
original_end frames rate pos = omega (arith, ceil_bounds (frames * work_sample_rate_hz) rate pos)

-- The working-rate image of a whole recording maps back to the whole recording: no frame at either
-- end is lost by the two roundings.
pub work_range-resampled_whole :
    (frames rate : ℕ)
    → 0 < frames
    → 0 < rate
    → frames ≤ rate * max_decoded_audio_duration_seconds
    → rate < 2 ^ 32
    → (count : ℕ) × (resampled_frame_count frames rate ≡ ok count)
      × (work_range_to_original_frames (record { start = 0; end = count }) rate frames
          ≡ ok (record { start = 0; end = frames }))
unfolding work_range_to_original_frames
work_range-resampled_whole frames rate some_frames pos limit word = (
  work_frames frames rate,
  resampled_frame_count_lem frames rate pos limit word,
  ground (
    arith,
    original_end frames rate,
    ceil_bounds (frames * work_sample_rate_hz) rate,
    checked_ceil_ratio_lem (work_frames frames rate) rate work_sample_rate_hz,
  ),
)

pub resampled_frame_count_same :
    (frames count : ℕ)
    → resampled_frame_count frames work_sample_rate_hz ≡ ok count
    → count ≡ frames
unfolding resampled_frame_count
resampled_frame_count_same frames count h = ground arith

pub checked_ceil_ratio_bounds :
    (value multiplier d q : ℕ)
    → checked_ceil_ratio value multiplier d ≡ ok q
    → (value * multiplier ≤ q * d) × (q * d < value * multiplier + d)
unfolding checked_ceil_ratio
checked_ceil_ratio_bounds value multiplier d q h =
    let pos : 0 < d = ground arith in
    let (below, above) = ceil_bounds (value * multiplier) d pos in (ground arith, ground arith)
