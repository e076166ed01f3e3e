-- ===== src/Vad/Select.antt =====
-- src-tauri/src/asr/vad.rs: the candidates for a cut and the choice among them.
use Prim.Native.Nat.{Ordering, compare}
use mathlib.Core.List.{foldl}
use life_sub.Common.{
  ℕ, zero, suc, ◌+◌, ◌-◌, ◌%◌, Bool, not, ◌&&◌, Option, none, some, List, [], ◌∷◌, ok, ◌>>=◌, ◌>>◌,
  guard, ok_or, ltb, leb, ◌==◌, if◌then◌else◌, length, take, drop, checked_add, checked_sub,
  try_from,
}
use life_sub.Common.Floats.{Floats}
use life_sub.Audio.{
  AudioResult, SampleRange, checked_sample_index, invalid_range, arithmetic_overflow,
  index_out_of_range,
}

abbrev pub padding : ℕ
padding = 3200

abbrev pub max_provider_window : ℕ
max_provider_window = 400000

abbrev pub energy_frame : ℕ
energy_frame = 320

abbrev pub energy_half_frame : ℕ
energy_half_frame = 160

abbrev pub split_search_radius : ℕ
split_search_radius = 32000

pub record ProviderWindow : Type 0 where
  pub core : SampleRange
  pub inference : SampleRange

pub record EvidenceUtterance : Type 0 where
  pub evidence : SampleRange
  pub windows : List ProviderWindow

-- `checked_sub(amount).unwrap_or(0)`: subtraction on ℕ stops at 0.
abbrev pub checked_sub_or_zero : ℕ → ℕ → ℕ
checked_sub_or_zero value amount = value - amount

-- The `while` loop of `absolute_grid_candidates`; the fuel bounds the rounds.
unfoldable pub grid_loop : ℕ → ℕ → ℕ → List ℕ
unfolding checked_add
grid_loop zero candidate end = []
grid_loop (suc fuel) candidate end =
    let next : List ℕ = elim (checked_add candidate energy_frame) [
      | some next ↦ grid_loop fuel next end
      | none ↦ []
    ] in
    if leb candidate end then candidate ∷ next else []

unfoldable pub absolute_grid_candidates : ℕ → ℕ → AudioResult (List ℕ)
unfolding grid_loop checked_add
absolute_grid_candidates start end = if ltb end start then ok [] else (do
  let remainder = start % energy_frame
  first ←
      (if remainder == 0
        then ok start
        else ok_or (checked_add start (energy_frame - remainder)) arithmetic_overflow)
  ok (grid_loop (suc end) first end))

module _ (fl : Floats) where
  open fl use {F32, F64, from_f32, from_int, f64_zero, f64_add, f64_mul, f64_div, total_cmp}

  -- The order of `min_by`: by energy, then by position.
  unfoldable pub comes_before : ℕ × F64 → ℕ × F64 → Ordering
  comes_before (a, x) (b, y) = elim (total_cmp x y) [
    | Ordering.eq ↦ compare a b
    | Ordering.lt ↦ Ordering.lt
    | Ordering.gt ↦ Ordering.gt
  ]

  -- `min_by` keeps the earlier of two equal elements.
  unfoldable pub min_candidate : ℕ × F64 → List (ℕ × F64) → ℕ × F64
  unfolding comes_before
  min_candidate best [] = best
  min_candidate best (c ∷ cs) =
      min_candidate (elim (comes_before best c) [ Ordering.gt ↦ c | _ ↦ best ]) cs

  unfoldable pub select_boundary : ℕ → List (ℕ × F64) → ℕ
  unfolding min_candidate
  select_boundary latest_safe [] = latest_safe
  select_boundary latest_safe (c ∷ cs) = (min_candidate c cs).0

  unfoldable pub frame_energy : List F32 → F64
  frame_energy frame =
      f64_div
        (foldl (λ sum sample. f64_add sum (f64_mul (from_f32 sample) (from_f32 sample))) f64_zero
          frame)
        (from_int energy_frame)

  -- What a candidate's round of the loop tests before it scores it.
  unfoldable pub is_scored : List F32 → SampleRange → ℕ → ℕ → ℕ → Bool
  is_scored samples core cursor latest_safe candidate =
      candidate % energy_frame == 0
      && ltb cursor candidate
      && leb candidate latest_safe
      && leb core.start candidate
      && ltb candidate core.end
      && leb (latest_safe - split_search_radius) candidate
      && leb candidate (latest_safe + split_search_radius)
      && leb core.start (candidate - energy_half_frame)
      && leb (candidate + energy_half_frame) core.end
      && leb (candidate + energy_half_frame) (length samples)

  -- A round of the loop: `none` is its `continue`.
  unfoldable pub score_candidate :
      List F32 → SampleRange → ℕ → ℕ → ℕ → AudioResult (Option (ℕ × F64))
  unfolding checked_sub checked_add checked_sample_index try_from frame_energy
  score_candidate samples core cursor latest_safe candidate =
      elim (checked_sub candidate energy_half_frame) [
        | none ↦ ok none
        | some frame_start ↦
            ok_or (checked_add candidate energy_half_frame) arithmetic_overflow >>= λ frame_end.
            if not (is_scored samples core cursor latest_safe candidate) then ok none else (do
              start ← checked_sample_index frame_start (length samples)
              end ← ok_or (try_from frame_end) index_out_of_range
              guard (leb end (length samples)) index_out_of_range
              ok (some (candidate, frame_energy (take (end - start) (drop start samples)))))
      ]

  unfoldable pub score_candidates :
      List F32 → SampleRange → ℕ → ℕ → List ℕ → AudioResult (List (ℕ × F64))
  unfolding score_candidate
  score_candidates samples core cursor latest_safe [] = ok []
  score_candidates samples core cursor latest_safe (c ∷ cs) = do
    scored ← score_candidate samples core cursor latest_safe c
    rest ← score_candidates samples core cursor latest_safe cs
    ok (elim scored [ none ↦ rest | some s ↦ s ∷ rest ])

  unfoldable pub candidates_for : Option (List ℕ) → ℕ → ℕ → AudioResult (List ℕ)
  unfolding absolute_grid_candidates
  candidates_for (some injected) search_start latest_safe = ok injected
  candidates_for none search_start latest_safe = absolute_grid_candidates search_start latest_safe

  unfoldable pub select_split_boundary :
      List F32 → SampleRange → ℕ → ℕ → Option (List ℕ) → AudioResult ℕ
  unfolding select_boundary score_candidates candidates_for checked_add try_from
  select_split_boundary samples core cursor latest_safe injected_candidates = do
    total_samples ← ok_or (try_from (length samples)) index_out_of_range
    guard
        (leb core.start cursor
          && ltb cursor latest_safe
          && ltb latest_safe core.end
          && leb core.end total_samples)
        invalid_range
    _ ← ok_or (checked_add latest_safe split_search_radius) arithmetic_overflow
    candidates ←
        candidates_for injected_candidates (checked_sub_or_zero latest_safe split_search_radius)
          latest_safe
    scored ← score_candidates samples core cursor latest_safe candidates
    ok (select_boundary latest_safe scored)
