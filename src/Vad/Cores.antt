-- ===== src/Vad/Cores.antt =====
-- The cores of a detector: which are accepted, and what becomes of them.
use life_sub.Common.{
  ℕ, ◌+◌, ◌≤◌, ◌<◌, ◌≡◌, refl, ◌∙◌, ◌⊎◌, inl, inr, true, false, Option, some, none, List, [], ◌∷◌,
  ok, err, arith, All, length, u64_mod, Bool-cases, ltb, leb, ◌&&◌, try_from_ok,
}
use life_sub.Common.Floats.{Floats}
use life_sub.Audio.{SampleRange, invalid_detector_cores, invalid_range, AudioPreparationError}
use life_sub.Vad.Select.{max_provider_window, ProviderWindow, EvidenceUtterance}
use life_sub.Vad.Partition.{
  follows, validate_cores, validate_detector_cores, collect_utterances, partition_core,
  partition_detector_cores, partition_without_vad,
}
use life_sub.Vad.Windows.{Tiles, IsWindow, partition_core-Tiles}

-- The cores lie in the recording from `a` on, in order and apart.
abbrev pub AreApart : ℕ → ℕ → List SampleRange → Type 0
AreApart total a [] = Unit {0}
AreApart total a (c ∷ cs) =
    (a ≤ c.start) × (c.start < c.end) × (c.end ≤ total) × AreApart total c.end cs

-- One utterance for each core, with the core as its evidence and windows that tile it.
abbrev pub AreUtterances : ℕ → List SampleRange → List EvidenceUtterance → Type 0
AreUtterances total [] [] = Unit {0}
AreUtterances total [] (u ∷ us) = ⊥
AreUtterances total (c ∷ cs) [] = ⊥
AreUtterances total (c ∷ cs) (u ∷ us) =
    (u.evidence ≡ c)
    × Tiles c.start c.end u.windows
    × All (IsWindow total) u.windows
    × AreUtterances total cs us

abbrev end_of : Option SampleRange → ℕ
end_of none = 0
end_of (some r) = r.end

abbrev IsCore : Option SampleRange → Type 0
IsCore none = Unit {0}
IsCore (some r) = r.start < r.end

validate_cores_ok :
    (total : ℕ) (previous : Option SampleRange) (cores : List SampleRange)
    → IsCore previous
    → AreApart total (end_of previous) cores
    → validate_cores total previous cores ≡ ok tt
unfolding validate_cores
validate_cores_ok total previous [] h v = refl
validate_cores_ok total none (c ∷ cs) h v =
    ground (arith, validate_cores_ok total (some c) cs v.1 v.3)
validate_cores_ok total (some p) (c ∷ cs) h v =
    ground (arith, validate_cores_ok total (some c) cs v.1 v.3)

validate_cores-cases :
    (total : ℕ) (previous : Option SampleRange) (cores : List SampleRange)
    → IsCore previous
    → AreApart total (end_of previous) cores
      ⊎ (validate_cores total previous cores ≡ err invalid_detector_cores)
unfolding validate_cores
validate_cores-cases total previous [] h = inl tt
validate_cores-cases total none (c ∷ cs) h =
    elim (Bool-cases (ltb c.start c.end && leb c.end total)) [
      | inr out ↦ inr (ground arith)
      | inl inside ↦ elim (validate_cores-cases total (some c) cs (ground arith)) [
        | inl v ↦ inl (omega arith, ground arith, ground arith, v)
        | inr e ↦ inr (ground arith)
      ]
    ]
validate_cores-cases total (some p) (c ∷ cs) h =
    elim (Bool-cases (ltb c.start c.end && leb c.end total && follows (some p) c)) [
      | inr out ↦ inr (ground arith)
      | inl inside ↦ elim (validate_cores-cases total (some c) cs (ground arith)) [
        | inl v ↦ inl (ground arith, ground arith, ground arith, v)
        | inr e ↦ inr (ground arith)
      ]
    ]

refused_not_apart :
    (total : ℕ) (previous : Option SampleRange) (cores : List SampleRange)
    → IsCore previous
    → validate_cores total previous cores ≡ err invalid_detector_cores
    → ¬ AreApart total (end_of previous) cores
refused_not_apart total previous cores h e v = cc (validate_cores_ok total previous cores h v)

module _ (fl : Floats) (samples : List fl.F32)
    (word : length samples + max_provider_window < u64_mod) where
  validate_detector_cores-eq :
      (cores : List SampleRange)
      → validate_detector_cores fl samples cores ≡ validate_cores (length samples) none cores
  unfolding validate_detector_cores
  validate_detector_cores-eq cores = rw (try_from_ok (length samples) (omega arith))

  collect_utterances_ok :
      (a : ℕ) (cores : List SampleRange)
      → AreApart (length samples) a cores
      → (us : List EvidenceUtterance) × (collect_utterances fl samples cores ≡ some (ok us))
        × AreUtterances (length samples) cores us
  unfolding collect_utterances
  collect_utterances_ok a [] v = ([], refl, tt)
  collect_utterances_ok a (c ∷ cs) v =
      let (ws, ew, tiles, windows) = partition_core-Tiles fl samples c v.1 v.2 word in
      let (us, eu, rest) = collect_utterances_ok c.end cs v.3 in
      (record { evidence = c; windows = ws } ∷ us, rw (ew, eu), (refl, tiles, windows, rest))

  accepted :
      (cores : List SampleRange)
      → validate_cores (length samples) none cores ≡ ok tt
      → partition_detector_cores fl samples cores ≡ collect_utterances fl samples cores
  unfolding partition_detector_cores
  accepted cores e = rw (validate_detector_cores-eq cores ∙ e, partition_detector_cores)

  refused :
      (cores : List SampleRange) (x : AudioPreparationError)
      → validate_cores (length samples) none cores ≡ err x
      → partition_detector_cores fl samples cores ≡ some (err x)
  unfolding partition_detector_cores
  refused cores x e = rw (validate_detector_cores-eq cores ∙ e, partition_detector_cores)

  -- The detector's cores are accepted exactly when each is a range of the recording and each starts at
  -- or after the end of the one before. Then there is one utterance for each core, in order, with the
  -- core as its evidence and windows that tile it and fit the provider; otherwise the cores are refused
  -- with `invalid_detector_cores`. The recording is shorter than a word by the length of a window.
  pub partition_detector_cores_exact :
      (cores : List SampleRange)
      → (AreApart (length samples) 0 cores
          × (us : List EvidenceUtterance) × (partition_detector_cores fl samples cores
              ≡ some (ok us))
          × AreUtterances (length samples) cores us)
        ⊎ ((¬ AreApart (length samples) 0 cores)
            × (partition_detector_cores fl samples cores ≡ some (err invalid_detector_cores)))
  partition_detector_cores_exact cores =
      elim (validate_cores-cases (length samples) none cores tt) [
        | inl v ↦
            let (us, e, all) = collect_utterances_ok 0 cores v in
            inl
              (v, us, accepted cores (validate_cores_ok (length samples) none cores tt v) ∙ e, all)
        | inr e ↦ inr (
          refused_not_apart (length samples) none cores tt e,
          refused cores invalid_detector_cores e,
        )
      ]

  without_none :
      leb (length samples) 0 ≡ true → partition_without_vad fl samples ≡ some (err invalid_range)
  unfolding partition_without_vad
  without_none empty = ground arith

  without_some :
      leb (length samples) 0 ≡ false
      → (ws : List ProviderWindow)
      → partition_core fl samples (record { start = 0; end = length samples }) ≡ some (ok ws)
      → partition_without_vad fl samples
        ≡ some (ok (record { evidence = record { start = 0; end = length samples }; windows = ws }))
  unfolding partition_without_vad
  without_some pos ws e = ground arith

  -- Without a detector the whole recording is one utterance, cut like a core; an empty recording is
  -- refused with `invalid_range`.
  pub partition_without_vad_exact :
      ((length samples ≡ 0) × (partition_without_vad fl samples ≡ some (err invalid_range)))
      ⊎ ((ws : List ProviderWindow) × (partition_without_vad fl samples
            ≡ some (
                ok
                  (record { evidence = record { start = 0; end = length samples }; windows = ws })))
          × Tiles 0 (length samples) ws
          × All (IsWindow (length samples)) ws)
  partition_without_vad_exact = elim (Bool-cases (leb (length samples) 0)) [
    | inl empty ↦ inl (ground arith, without_none empty)
    | inr some_samples ↦
        let (ws, e, tiles, windows) =
          partition_core-Tiles fl samples (record { start = 0; end = length samples })
            (ground arith) (omega arith) word in
        inr (ws, without_some some_samples ws e, tiles, windows)
  ]
