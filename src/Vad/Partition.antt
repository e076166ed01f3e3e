-- ===== src/Vad/Partition.antt =====
-- src-tauri/src/asr/vad.rs: the loop that cuts a core into windows, and the calls of it.
use mathlib.Core.Option
use life_sub.Common.{
  ℕ, zero, suc, ◌-◌, min, Bool, true, ◌&&◌, ◌||◌, Option, none, some, List, [], ◌∷◌, ok, err, ◌>>=◌,
  ◌>>◌, guard, ok_or, ltb, leb, if◌then◌else◌, length, checked_add, checked_sub, try_from,
}
use life_sub.Common.Floats.{Floats}
use life_sub.Audio.{
  AudioResult, SampleRange, new_range, checked_len, invalid_range, invalid_detector_cores,
  arithmetic_overflow, index_out_of_range,
}
use life_sub.Vad.Select.{
  padding, max_provider_window, ProviderWindow, EvidenceUtterance, checked_sub_or_zero,
  select_split_boundary,
}

-- A window joins those of the rounds that follow.
abbrev pub push_window :
    AudioResult (ProviderWindow × Option ℕ)
    → (ℕ → Option (AudioResult (List ProviderWindow)))
    → Option (AudioResult (List ProviderWindow))
push_window (err e) rest = some (err e)
push_window (ok (w, none)) rest = some (ok (w ∷ []))
push_window (ok (w, some boundary)) rest = Option.map (λ r. r >>= λ ws. ok (w ∷ ws)) (rest boundary)

-- The core starts after the previous one, and not before its end.
abbrev pub follows : Option SampleRange → SampleRange → Bool
follows none core = true
follows (some previous) core = ltb previous.start core.start && leb previous.end core.start

-- An utterance joins those of the cores that follow, which are computed only if it is no error.
abbrev pub push_utterance :
    SampleRange
    → Option (AudioResult (List ProviderWindow))
    → Option (AudioResult (List EvidenceUtterance))
    → Option (AudioResult (List EvidenceUtterance))
push_utterance core none rest = none
push_utterance core (some (err e)) rest = some (err e)
push_utterance core (some (ok ws)) rest =
    Option.map (λ r. r >>= λ us. ok (record { evidence = core; windows = ws } ∷ us)) rest

-- The loop of `validate_detector_cores`.
unfoldable pub validate_cores : ℕ → Option SampleRange → List SampleRange → AudioResult (Unit {0})
validate_cores total_samples previous [] = ok tt
validate_cores total_samples previous (core ∷ cores) = do
  guard (ltb core.start core.end && leb core.end total_samples) invalid_detector_cores
  guard (follows previous core) invalid_detector_cores
  validate_cores total_samples (some core) cores

module _ (fl : Floats) where
  open fl use {F32}

  -- One round of the loop of `partition_core` at `cursor`: the last window, or a window and the next
  -- cursor.
  unfoldable pub partition_step :
      List F32 → SampleRange → ℕ → ℕ → AudioResult (ProviderWindow × Option ℕ)
  unfolding new_range checked_len checked_add checked_sub
  partition_step samples core total_samples cursor = do
    let inference_start = checked_sub_or_zero cursor padding
    padded ← ok_or (checked_add core.end padding) arithmetic_overflow
    let padded_core_end = min padded total_samples
    padded_len ← ok_or (checked_sub padded_core_end inference_start) arithmetic_overflow
    if leb padded_len max_provider_window
        then (do
          c ← new_range cursor core.end
          inference ← new_range inference_start padded_core_end
          ok (record { core = c; inference = inference }, none))
        else (do
          limit ← ok_or (checked_add inference_start max_provider_window) arithmetic_overflow
          latest_safe ← ok_or (checked_sub limit padding) arithmetic_overflow
          guard (ltb cursor latest_safe && ltb latest_safe core.end) invalid_range
          boundary ← select_split_boundary fl samples core cursor latest_safe none
          guard (ltb cursor boundary && leb boundary latest_safe) invalid_range
          inference_end ← ok_or (checked_add boundary padding) arithmetic_overflow
          inference ← new_range inference_start inference_end
          inference_len ← checked_len inference
          guard (leb inference_len max_provider_window) invalid_range
          c ← new_range cursor boundary
          ok (record { core = c; inference = inference }, some boundary))

  unfoldable pub partition_loop :
      ℕ → List F32 → SampleRange → ℕ → ℕ → Option (AudioResult (List ProviderWindow))
  partition_loop zero samples core total_samples cursor = none
  partition_loop (suc fuel) samples core total_samples cursor =
      let rest = λ (boundary : ℕ). partition_loop fuel samples core total_samples boundary in
      if leb core.end cursor
      then some (ok [])
      else push_window (partition_step samples core total_samples cursor) rest

  -- Each round moves the cursor, so the length of the core is fuel enough.
  unfoldable pub partition_core :
      List F32 → SampleRange → Option (AudioResult (List ProviderWindow))
  partition_core samples core = elim (try_from (length samples)) [
    | none ↦ some (err index_out_of_range)
    | some total_samples ↦
        if leb core.end core.start || ltb total_samples core.end
        then some (err invalid_range)
        else partition_loop (suc (core.end - core.start)) samples core total_samples core.start
  ]

  unfoldable pub validate_detector_cores : List F32 → List SampleRange → AudioResult (Unit {0})
  unfolding validate_cores try_from
  validate_detector_cores samples cores = do
    total_samples ← ok_or (try_from (length samples)) index_out_of_range
    validate_cores total_samples none cores

  -- `map` and `collect` over the cores: the first error ends it.
  unfoldable pub collect_utterances :
      List F32 → List SampleRange → Option (AudioResult (List EvidenceUtterance))
  collect_utterances samples [] = some (ok [])
  collect_utterances samples (core ∷ cores) =
      push_utterance core (partition_core samples core) (collect_utterances samples cores)

  unfoldable pub partition_detector_cores :
      List F32 → List SampleRange → Option (AudioResult (List EvidenceUtterance))
  partition_detector_cores samples cores = elim (validate_detector_cores samples cores) [
    | err e ↦ some (err e)
    | ok _ ↦ collect_utterances samples cores
  ]

  unfoldable pub partition_without_vad : List F32 → Option (AudioResult EvidenceUtterance)
  unfolding new_range try_from
  partition_without_vad samples =
      elim (ok_or (try_from (length samples)) index_out_of_range >>= λ total. new_range 0 total) [
        | err e ↦ some (err e)
        | ok evidence ↦
            Option.map (λ r. r >>= λ ws. ok (record { evidence = evidence; windows = ws }))
              (partition_core samples evidence)
      ]
