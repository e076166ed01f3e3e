-- ===== src/Audio/Budget.antt =====
-- The budget of a decoding run: at most a day of frames, and the samples in step with the frames.
use life_sub.Common.{
  ℕ, ◌+◌, ◌*◌, ◌≤◌, ◌<◌, ◌≡◌, ok, err, arith, if◌then◌else◌, leb, leb→le, Bool-cases, inl, inr,
  u64_mod,
}
use native.Mathlib.Nat.{mul-le-mul_right, add-mul}
use life_sub.Audio.{
  resource_limit_exceeded, max_decoded_audio_duration_seconds, DecodeResourceBudget, new_budget,
  accept_packet,
}

pub record IsInBudget (rate : ℕ) (b : DecodeResourceBudget) : Type 0 where
  pub some_channels : 0 < b.channels
  pub frames_limit : b.max_source_frames ≡ rate * max_decoded_audio_duration_seconds
  pub samples_limit : b.max_interleaved_samples ≡ b.max_source_frames * b.channels
  pub frames_within : b.source_frames ≤ b.max_source_frames
  pub samples_in_step : b.interleaved_samples ≡ b.source_frames * b.channels
  pub addressable : b.max_interleaved_samples < u64_mod

-- What a successful call of `new` and of `accept_packet` has computed and tested.
new_budget-eq-ok :
    (rate channels : ℕ) (b : DecodeResourceBudget)
    → new_budget rate channels ≡ ok b
    → (0 < channels)
      × (rate * max_decoded_audio_duration_seconds * channels < u64_mod)
      × (b ≡ record {
        channels = channels;
        max_source_frames = rate * max_decoded_audio_duration_seconds;
        max_interleaved_samples = rate * max_decoded_audio_duration_seconds * channels;
        source_frames = 0;
        interleaved_samples = 0;
      })
unfolding new_budget
new_budget-eq-ok rate channels b h = (ground arith, ground arith, ground arith)

accept_packet-eq-ok :
    (b c : DecodeResourceBudget) (frames samples : ℕ)
    → accept_packet b frames samples ≡ ok c
    → (0 < frames)
      × (samples ≡ frames * b.channels)
      × (b.source_frames + frames ≤ b.max_source_frames)
      × (c ≡ record b {
        source_frames = b.source_frames + frames;
        interleaved_samples = b.interleaved_samples + samples;
      })
unfolding accept_packet
accept_packet-eq-ok b c frames samples h = (ground arith, ground arith, ground arith, ground arith)

pub new_budget-IsInBudget :
    (rate channels : ℕ) (b : DecodeResourceBudget)
    → new_budget rate channels ≡ ok b
    → IsInBudget rate b × (b.channels ≡ channels) × (b.source_frames ≡ 0)
new_budget-IsInBudget rate channels b h =
    let (some_channels, addressable, e) = new_budget-eq-ok rate channels b h in ground arith

pub accept_packet-IsInBudget :
    (rate : ℕ) (b c : DecodeResourceBudget) (frames samples : ℕ)
    → IsInBudget rate b
    → accept_packet b frames samples ≡ ok c
    → IsInBudget rate c
      × (c.channels ≡ b.channels)
      × (c.source_frames ≡ b.source_frames + frames)
      × (c.interleaved_samples ≡ b.interleaved_samples + samples)
accept_packet-IsInBudget rate b c frames samples v h =
    let (pos, in_step, within, e) = accept_packet-eq-ok b c frames samples h in
    rw e (ground (arith, add-mul b.source_frames frames b.channels))

room :
    (rate : ℕ) (b : DecodeResourceBudget) (frames : ℕ)
    → IsInBudget rate b
    → b.source_frames + frames ≤ b.max_source_frames
    → b.interleaved_samples + frames * b.channels ≤ b.max_interleaved_samples
room rate b frames v h =
    omega (arith, mul-le-mul_right b.channels h, add-mul b.source_frames frames b.channels)

channels-le : (frames channels : ℕ) → 0 < frames → channels ≤ frames * channels
channels-le frames channels h = grind arith

frames-le : (frames channels : ℕ) → 0 < channels → frames ≤ frames * channels
frames-le frames channels h = grind arith

samples-pos : (frames channels : ℕ) → 0 < frames → 0 < channels → 0 < frames * channels
samples-pos frames channels h k = grind arith

-- A packet whose samples match its frames, and fit a word, is accepted exactly when the limit of a day
-- leaves room for its frames; then both counts grow by it, and nothing else changes. The other packets
-- of that kind are refused with `resource_limit_exceeded`.
pub accept_packet_exact :
    (rate : ℕ) (b : DecodeResourceBudget) (frames : ℕ)
    → IsInBudget rate b
    → 0 < frames
    → frames * b.channels < u64_mod
    → accept_packet b frames (frames * b.channels) ≡ (
        if leb (b.source_frames + frames) b.max_source_frames
        then ok (record b {
          source_frames = b.source_frames + frames;
          interleaved_samples = b.interleaved_samples + frames * b.channels;
        })
        else err resource_limit_exceeded)
unfolding accept_packet
accept_packet_exact rate b frames v pos word =
    elim (Bool-cases (leb (b.source_frames + frames) b.max_source_frames)) [
      | inl fits ↦ rw fits (
          ground (
            arith,
            room rate b frames v (leb→le _ _ fits),
            frames-le b.max_source_frames b.channels v.some_channels,
            channels-le frames b.channels pos,
            samples-pos frames b.channels pos v.some_channels,
          ))
      | inr full ↦ rw full (
          ground (
            arith,
            channels-le frames b.channels pos,
            samples-pos frames b.channels pos v.some_channels,
          ))
    ]
