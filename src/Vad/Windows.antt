-- ===== src/Vad/Windows.antt =====
-- The windows of a core: they tile it, and each fits the provider with its padding.
use life_sub.Common.{
  ℕ, zero, suc, ◌+◌, ◌-◌, ◌≤◌, ◌<◌, min, ◌≡◌, refl, ◌∙◌, sym, subst, Option, some, none, List, [],
  ◌∷◌, ok, arith, All, length, u64_mod, Bool-cases, inl, inr, leb, try_from_ok,
}
use life_sub.Common.Floats.{Floats}
use life_sub.Audio.{AudioResult, SampleRange}
use life_sub.Vad.Select.{padding, max_provider_window, ProviderWindow, select_split_boundary}
use life_sub.Vad.Partition.{push_window, partition_step, partition_loop, partition_core}
use life_sub.Vad.Boundary.{select_split_boundary_total}

-- The window covers its part of the core, with the padding on both sides that the recording has, and
-- is no longer than the provider takes.
pub record IsWindow (total : ℕ) (w : ProviderWindow) : Type 0 where
  pub some_samples : w.core.start < w.core.end
  pub padded_before : w.inference.start ≡ w.core.start - padding
  pub padded_after : w.inference.end ≡ min (w.core.end + padding) total
  pub inside : w.core.end ≤ total
  pub provider_limit : w.inference.end ≤ w.inference.start + max_provider_window

-- The windows cover the samples from `a` to `b`, in order, without a gap or an overlap.
abbrev pub Tiles : ℕ → ℕ → List ProviderWindow → Type 0
Tiles a b [] = a ≡ b
Tiles a b (w ∷ ws) = (w.core.start ≡ a) × Tiles w.core.end b ws

module _ (fl : Floats) (samples : List fl.F32) (core : SampleRange) (cursor : ℕ) where
  abbrev Continues : Option ℕ → ProviderWindow → Type 0
  Continues none w = w.core.end ≡ core.end
  Continues (some b) w = (w.core.end ≡ b) × (cursor < b) × (b < core.end)

  abbrev padded_end : ℕ
  padded_end = min (core.end + padding) (length samples)

  partition_step_last :
      cursor < core.end
      → core.end ≤ length samples
      → length samples + max_provider_window < u64_mod
      → padded_end ≤ cursor - padding + max_provider_window
      → (w : ProviderWindow) × (partition_step fl samples core (length samples) cursor
          ≡ ok (w, none))
        × IsWindow (length samples) w
        × (w.core.start ≡ cursor)
        × (w.core.end ≡ core.end)
  unfolding partition_step
  partition_step_last h1 h2 word short = (
    record {
      core = record { start = cursor; end = core.end };
      inference = record { start = cursor - padding; end = padded_end };
    },
    ground arith,
    ground arith,
    refl,
    refl,
  )

  abbrev latest_safe : ℕ
  latest_safe = cursor - padding + max_provider_window - padding

  partition_step_cut :
      (b : ℕ)
      → select_split_boundary fl samples core cursor latest_safe none ≡ ok b
      → cursor < b
      → b ≤ latest_safe
      → cursor < core.end
      → core.end ≤ length samples
      → length samples + max_provider_window < u64_mod
      → cursor - padding + max_provider_window < padded_end
      → partition_step fl samples core (length samples) cursor
        ≡ ok (
          record {
            core = record { start = cursor; end = b };
            inference = record { start = cursor - padding; end = b + padding };
          },
          some b,
        )
  unfolding partition_step
  partition_step_cut b eb after before h1 h2 word long = ground arith

  partition_step_more :
      core.start ≤ cursor
      → cursor < core.end
      → core.end ≤ length samples
      → length samples + max_provider_window < u64_mod
      → cursor - padding + max_provider_window < padded_end
      → (w : ProviderWindow) × (b : ℕ) × (partition_step fl samples core (length samples) cursor
          ≡ ok (w, some b))
        × IsWindow (length samples) w
        × (w.core.start ≡ cursor)
        × (w.core.end ≡ b)
        × (cursor < b)
        × (b < core.end)
  partition_step_more h0 h1 h2 word long =
      let (b, eb, after, before, _) =
        select_split_boundary_total fl samples core cursor latest_safe h0 (omega arith)
          (omega arith) h2 (omega arith) in
      (
        record {
          core = record { start = cursor; end = b };
          inference = record { start = cursor - padding; end = b + padding };
        },
        b,
        partition_step_cut b eb after before h1 h2 word long,
        omega arith,
        refl,
        refl,
        after,
        omega arith,
      )

abbrev Partitions : (samples : ℕ) → ℕ → ℕ → Option (AudioResult (List ProviderWindow)) → Type 0
Partitions total a b r =
    (ws : List ProviderWindow) × (r ≡ some (ok ws)) × Tiles a b ws × All (IsWindow total) ws

push_window-Partitions :
    {total a c : ℕ} (w : ProviderWindow) (b : ℕ)
    (rest : ℕ → Option (AudioResult (List ProviderWindow)))
    → Partitions total b c (rest b)
    → IsWindow total w
    → w.core.start ≡ a
    → w.core.end ≡ b
    → Partitions total a c (push_window (ok (w, some b)) rest)
push_window-Partitions {total} {a} {c} w b rest (ws, e, tiles, all) fits starts ends =
    (w ∷ ws, rw e, (starts, subst (λ x. Tiles x c ws) (sym ends) tiles), (fits, all))

module _ (fl : Floats) (samples : List fl.F32) (core : SampleRange) where
  partition_loop_ok :
      (fuel cursor : ℕ)
      → core.start ≤ cursor
      → cursor ≤ core.end
      → core.end ≤ length samples
      → length samples + max_provider_window < u64_mod
      → core.end < cursor + fuel
      → Partitions
          (length samples)
          cursor
          core.end
          (partition_loop fl fuel samples core (length samples) cursor)
  unfolding partition_loop
  partition_loop_ok zero cursor h0 h1 h2 word enough = absurd (omega arith)
  partition_loop_ok (suc fuel) cursor h0 h1 h2 word enough =
      elim (Bool-cases (leb core.end cursor)) [
        | inl done ↦ ([], rw done, ground arith, tt)
        | inr open_core ↦
            elim (Bool-cases
              (leb (padded_end fl samples core cursor) (cursor - padding + max_provider_window))) [
                | inl short ↦
                    let (w, ew, fits, starts, ends) =
                      partition_step_last fl samples core cursor (ground arith) h2 word
                        (ground arith) in
                    (w ∷ [], rw (open_core, ew), (starts, ends), (fits, tt))
                | inr long ↦
                    let (w, b, ew, fits, starts, ends, after, before) =
                      partition_step_more fl samples core cursor h0 (ground arith) h2 word
                        (ground arith) in
                    let rest =
                      partition_loop_ok fuel b (omega arith) (omega arith) h2 word (omega arith) in
                    rw (open_core, ew)
                      (push_window-Partitions w b
                        (λ c. partition_loop fl fuel samples core (length samples) c) rest fits
                        starts ends)
              ]
      ]

  partition_core-eq-loop :
      core.start < core.end
      → core.end ≤ length samples
      → length samples + max_provider_window < u64_mod
      → partition_core fl samples core
        ≡ partition_loop fl (suc (core.end - core.start)) samples core (length samples) core.start
  unfolding partition_core
  partition_core-eq-loop h1 h2 word =
      rw (try_from_ok (length samples) (omega arith), partition_core) (ground arith)

  -- A core within the recording is always cut, and never refused: the windows tile it from its first
  -- sample to its last, each with the padding that the recording has on either side, and none longer
  -- than the provider takes. The recording is shorter than a word by the length of a window.
  pub partition_core-Tiles :
      core.start < core.end
      → core.end ≤ length samples
      → length samples + max_provider_window < u64_mod
      → (ws : List ProviderWindow) × (partition_core fl samples core ≡ some (ok ws))
        × Tiles core.start core.end ws
        × All (IsWindow (length samples)) ws
  partition_core-Tiles h1 h2 word =
      let (ws, e, tiles, all) =
        partition_loop_ok (suc (core.end - core.start)) core.start (omega arith) (omega arith) h2
          word (omega arith) in
      (ws, partition_core-eq-loop h1 h2 word ∙ e, tiles, all)
