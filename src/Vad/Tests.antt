-- ===== src/Vad/Tests.antt =====
-- Runs of vad.rs, and its properties at inputs that meet their conditions.
use life_sub.Common.{
  ℕ, ◌%◌, ◌≤◌, ◌<◌, ◌≡◌, refl, ◌⊎◌, ◌&&◌, some, none, List, [], ◌∷◌, ok, err, arith, leb, ◌==◌, any,
  All,
}
use life_sub.Common.Floats.{whole_floats}
use life_sub.Audio.{SampleRange, invalid_detector_cores, invalid_range}
use life_sub.Vad.Select.{
  ProviderWindow, EvidenceUtterance, energy_frame, absolute_grid_candidates, select_split_boundary,
  select_boundary,
}
use life_sub.Vad.Partition.{partition_core, partition_detector_cores, partition_without_vad}
use life_sub.Vad.Grid.{absolute_grid_candidates_exact}
use life_sub.Vad.Boundary.{select_split_boundary_total}
use life_sub.Vad.Windows.{Tiles, IsWindow, partition_core-Tiles}
use life_sub.Vad.Cores.{
  AreApart, AreUtterances, partition_detector_cores_exact, partition_without_vad_exact,
}

-- The quieter position wins, and the earlier of two that are equally quiet.
quietest_first : select_boundary whole_floats 960 ((320, 5) ∷ (960, 2) ∷ (640, 2) ∷ []) ≡ 640
unfolding select_boundary
quietest_first = refl

grid_between : absolute_grid_candidates 100 960 ≡ ok (320 ∷ 640 ∷ 960 ∷ [])
unfolding absolute_grid_candidates
grid_between = refl

absolute_grid_candidates_exact_example :
    (cs : List ℕ) × (absolute_grid_candidates 100 960 ≡ ok cs)
    × ((c : ℕ) → any (λ x. x == c) cs ≡ (leb 100 c && leb c 960 && c % energy_frame == 0))
absolute_grid_candidates_exact_example = absolute_grid_candidates_exact 100 960 (omega arith)

abbrev short : List ℕ
short = 3 ∷ 1 ∷ 4 ∷ 1 ∷ 5 ∷ []

abbrev whole : SampleRange
whole = record { start = 0; end = 5 }

select_split_boundary_total_example :
    (b : ℕ) × (select_split_boundary whole_floats short whole 1 3 none ≡ ok b)
    × (1 < b)
    × (b ≤ 3)
    × ((b ≡ 3) ⊎ (b % energy_frame ≡ 0))
select_split_boundary_total_example =
    select_split_boundary_total whole_floats short whole 1 3 (omega arith) (omega arith)
      (omega arith) (omega arith) (omega arith)

partition_core-Tiles_example :
    (ws : List ProviderWindow) × (partition_core whole_floats short whole ≡ some (ok ws))
    × Tiles 0 5 ws
    × All (IsWindow 5) ws
partition_core-Tiles_example =
    partition_core-Tiles whole_floats short whole (omega arith) (omega arith) (omega arith)

abbrev cores : List SampleRange
cores = record { start = 0; end = 2 } ∷ record { start = 2; end = 5 } ∷ []

partition_detector_cores_exact_example :
    (AreApart 5 0 cores
      × (us : List EvidenceUtterance) × (partition_detector_cores whole_floats short cores
          ≡ some (ok us))
      × AreUtterances 5 cores us)
    ⊎ ((¬ AreApart 5 0 cores)
        × (partition_detector_cores whole_floats short cores ≡ some (err invalid_detector_cores)))
partition_detector_cores_exact_example =
    partition_detector_cores_exact whole_floats short (omega arith) cores

partition_without_vad_exact_example :
    ((◌≡◌ {A = ℕ} 5 0) × (partition_without_vad whole_floats short ≡ some (err invalid_range)))
    ⊎ ((ws : List ProviderWindow) × (partition_without_vad whole_floats short
          ≡ some (ok (record { evidence = record { start = 0; end = 5 }; windows = ws })))
        × Tiles 0 5 ws
        × All (IsWindow 5) ws)
partition_without_vad_exact_example = partition_without_vad_exact whole_floats short (omega arith)
