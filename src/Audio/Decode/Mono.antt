-- ===== src/Audio/Decode/Mono.antt =====
-- The prepared recording: one sample for each frame, at the working rate, with its duration.
use native.Mathlib.Nat.{div-eq-sub-div, div-eq_of_lt, mul-div_cancel}
use life_sub.Common.{
  ℕ, zero, suc, ◌+◌, ◌*◌, ◌/◌, ◌≤◌, ◌<◌, ◌≡◌, refl, ap, sym, ◌∙◌, ◌⊎◌, inl, inr, Bool, true, false,
  Option, some, none, List, ok, arith, All, length, take, drop, ◌==◌, Bool-cases, Result-cases,
  Option-cases, >>=-eq-ok, try_from, length-take, length-drop, length-map, min, subst,
}
use life_sub.Common.Floats.{Floats}
use life_sub.Audio.{
  DecodeResourceBudget, resampled_frame_count, checked_ceil_ratio, work_sample_rate_hz,
  max_decoded_audio_duration_seconds,
}
use life_sub.Audio.Ranges.{resampled_frame_count_same, checked_ceil_ratio_bounds}
use life_sub.Audio.Decode.{
  PacketEvent, DecodeState, initial_state, decode_loop, chunks_exact, mix_frame, clamp_sample,
  sanitize_and_downmix, resample_mono, Resampler, WorkingAudio, prepare_working_audio,
  decode_from_file,
}
use life_sub.Audio.Decode.Packets.{InStep, Matches, FillsItsSlice, decode_loop-InStep}

taken : (n m : ℕ) → (min n m == n) ≡ true → n ≤ m
taken n m h = ground arith

not_taken : (n m : ℕ) → (min n m == n) ≡ false → m < n
not_taken n m h = ground arith

length-chunks_exact {ℓ} :
    {A : Type ℓ} (fuel size : ℕ) (xs : List A)
    → 0 < size
    → length xs ≤ fuel
    → length (chunks_exact fuel size xs) ≡ length xs / size
unfolding chunks_exact
length-chunks_exact zero size xs pos enough = sym (div-eq_of_lt (omega arith))
length-chunks_exact {A} (suc fuel) size xs pos enough =
    elim (Bool-cases (length (take size xs) == size)) [
      | inl whole ↦
          rw
            (
              whole,
              length-chunks_exact fuel size (drop size xs) pos (omega (arith, length-drop size xs)),
              length-drop size xs,
            )
            (omega (arith, div-eq-sub-div pos (taken size (length xs) (rw length-take at whole))))
      | inr short ↦
          rw short (sym (div-eq_of_lt (not_taken size (length xs) (rw length-take at short))))
    ]

module _ (fl : Floats) (room : ℕ → Bool) where
  open fl use {F32}

  length-sanitize_and_downmix :
      (interleaved mono : List F32) (channels : ℕ)
      → sanitize_and_downmix fl room interleaved channels ≡ ok mono
      → length mono ≡ length interleaved / channels
  unfolding sanitize_and_downmix
  length-sanitize_and_downmix interleaved mono channels h = ground (
    arith,
    length-chunks_exact (length interleaved) channels interleaved,
    length-map (chunks_exact (length interleaved) channels interleaved) (mix_frame fl channels),
  )

  -- The two ways to the working rate: a copy, and the resampler's output with each sample clamped.
  resample_mono-eq-ok :
      (resampler : Resampler F32) (samples output : List F32) (rate count : ℕ)
      → resampled_frame_count (length samples) rate ≡ ok count
      → resample_mono fl room resampler samples rate ≡ ok output
      → ((rate ≡ work_sample_rate_hz) × (output ≡ samples))
        ⊎ ((produced : List F32) × (length produced ≡ count) × (length output ≡ length produced))
  unfolding resample_mono try_from
  resample_mono-eq-ok resampler samples output rate count e h =
      elim (Bool-cases (rate == work_sample_rate_hz)) [
        | inl same ↦ inl (ground arith, ground arith)
        | inr other ↦ elim (Option-cases (resampler.process rate samples)) [
          | inl failed ↦ absurd (ground arith)
          | inr (produced, p) ↦
              inr (produced, ground arith, ground (arith, length-map produced (clamp_sample fl)))
        ]
      ]

  length-resample_mono :
      (resampler : Resampler F32) (samples output : List F32) (rate : ℕ)
      → resample_mono fl room resampler samples rate ≡ ok output
      → resampled_frame_count (length samples) rate ≡ ok (length output)
  unfolding resample_mono try_from
  length-resample_mono resampler samples output rate h =
      elim (Result-cases (resampled_frame_count (length samples) rate)) [
        | inl (count, e) ↦ elim (resample_mono-eq-ok resampler samples output rate count e h) [
          | inl (same, copied) ↦ rw copied (
              e
              ∙ ap ok (
                  resampled_frame_count_same (length samples) count
                    (subst (λ r. resampled_frame_count (length samples) r ≡ ok count) same e)))
          | inr (produced, exact, kept) ↦ rw (kept, exact) e
        ]
        | inr (x, e) ↦ absurd (ground arith)
      ]

  -- What a prepared recording was computed from.
  prepare-eq-ok :
      (resampler : Resampler F32) (s : DecodeState F32) (w : WorkingAudio F32)
      → prepare_working_audio fl room resampler s ≡ ok w
      → (mono : List F32) × (s.source_rate ≡ some w.source_sample_rate_hz)
        × (s.source_channels ≡ some w.source_channels)
        × (w.source_frames ≡ s.source_frames)
        × (0 < w.source_frames)
        × (sanitize_and_downmix fl room s.interleaved w.source_channels ≡ ok mono)
        × (resample_mono fl room resampler mono w.source_sample_rate_hz ≡ ok w.samples)
        × (w.sample_rate_hz ≡ work_sample_rate_hz)
        × (checked_ceil_ratio w.source_frames 1000 w.source_sample_rate_hz ≡ ok w.duration_ms)
  unfolding prepare_working_audio
  prepare-eq-ok resampler s w h =
      elim (Result-cases (sanitize_and_downmix fl room s.interleaved w.source_channels)) [
        | inl (mono, e) ↦ (
          mono,
          ground arith,
          ground arith,
          ground arith,
          ground arith,
          e,
          ground arith,
          ground arith,
          ground arith,
        )
        | inr (x, e) ↦ absurd (ground arith)
      ]

  frames-of-samples :
      (s : DecodeState F32) (m : Option DecodeResourceBudget) (rate channels : ℕ)
      → Matches s m
      → 0 < s.source_frames
      → s.source_rate ≡ some rate
      → s.source_channels ≡ some channels
      → (s.source_frames ≤ rate * max_decoded_audio_duration_seconds)
        × (length s.interleaved / channels ≡ s.source_frames)
  frames-of-samples s none rate channels v pos er ec = absurd (omega arith)
  frames-of-samples s (some b) rate channels (rate', er', ec', v, frames, samples) pos er ec =
      let same : rate' ≡ rate = ground arith in
      let mine : b.channels ≡ channels = ground arith in
      (
        subst (λ r. s.source_frames ≤ r * max_decoded_audio_duration_seconds) same (omega arith),
        rw (← mine, samples, v.samples_in_step, ← frames)
            (mul-div_cancel s.source_frames v.some_channels),
      )

  -- A recording whose packets write as many samples as their headers say is prepared, if at all, with
  -- at least one frame and at most a day of frames, at the working rate, with exactly the samples that
  -- the change of rate gives for its frames, and a duration that is its length rounded up to a
  -- millisecond.
  pub decode_from_file_counts :
      (resampler : Resampler F32) (track_id : ℕ) (packets : List (PacketEvent F32))
      (w : WorkingAudio F32)
      → All FillsItsSlice packets
      → decode_from_file fl room resampler track_id packets ≡ ok w
      → (0 < w.source_frames)
        × (w.source_frames ≤ w.source_sample_rate_hz * max_decoded_audio_duration_seconds)
        × (w.sample_rate_hz ≡ work_sample_rate_hz)
        × (resampled_frame_count w.source_frames w.source_sample_rate_hz ≡ ok (length w.samples))
        × (w.source_frames * 1000 ≤ w.duration_ms * w.source_sample_rate_hz)
        × (w.duration_ms * w.source_sample_rate_hz
            < w.source_frames * 1000 + w.source_sample_rate_hz)
  unfolding decode_from_file initial_state
  decode_from_file_counts resampler track_id packets w fills h =
      let (s, looped, prepared) =
        >>=-eq-ok (decode_loop room track_id initial_state packets)
          (λ s. prepare_working_audio fl room resampler s) h in
      let v : InStep s =
        decode_loop-InStep room track_id initial_state s packets (refl, refl) fills looped in
      let (mono, er, ec, ef, pos, mixed, resampled, at, timed) =
        prepare-eq-ok resampler s w prepared in
      let (limit, frames) =
        frames-of-samples s s.resource_budget w.source_sample_rate_hz w.source_channels v
          (omega arith) er ec in
      let counted : length mono ≡ w.source_frames =
        length-sanitize_and_downmix s.interleaved mono w.source_channels mixed ∙ frames ∙ sym ef in
      let (below, above) =
        checked_ceil_ratio_bounds w.source_frames 1000 w.source_sample_rate_hz w.duration_ms
          timed in
      (
        pos,
        rw ef limit,
        at,
        subst (λ n. resampled_frame_count n w.source_sample_rate_hz ≡ ok (length w.samples)) counted
            (length-resample_mono resampler mono w.samples w.source_sample_rate_hz resampled),
        below,
        above,
      )
