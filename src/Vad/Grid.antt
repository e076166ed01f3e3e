-- ===== src/Vad/Grid.antt =====
-- The grid of cut positions.
use life_sub.Common.{
  ℕ, zero, suc, ◌+◌, ◌-◌, ◌*◌, ◌%◌, ◌<◌, ◌≡◌, ◌∙◌, Bool, true, false, ◌&&◌, List, [], ok, arith,
  any, ltb, leb, ◌==◌, if◌then◌else◌, u64_mod, Bool-cases, inl, inr,
}
use life_sub.Vad.Select.{grid_loop, absolute_grid_candidates, energy_frame}

abbrev on_grid : ℕ → ℕ → ℕ → Bool
on_grid start end c = leb start c && leb c end && c % energy_frame == 0

grid_loop_exact :
    (fuel candidate end c : ℕ)
    → candidate % energy_frame ≡ 0
    → end < candidate + fuel * energy_frame
    → end + energy_frame < u64_mod
    → any (λ x. x == c) (grid_loop fuel candidate end) ≡ on_grid candidate end c
unfolding grid_loop
grid_loop_exact zero candidate end c aligned enough word = ground arith
grid_loop_exact (suc fuel) candidate end c aligned enough word =
    ground (arith, grid_loop_exact fuel (candidate + energy_frame) end c)

-- The first position of the grid from `start` on.
abbrev first_on_grid : ℕ → ℕ
first_on_grid start =
    if start % energy_frame == 0 then start else start + (energy_frame - start % energy_frame)

first_aligned : (start : ℕ) → first_on_grid start % energy_frame ≡ 0
first_aligned start = ground arith

grid-empty : (start end c : ℕ) → ltb end start ≡ true → false ≡ on_grid start end c
grid-empty start end c h = ground arith

on_grid-first : (start end c : ℕ) → on_grid (first_on_grid start) end c ≡ on_grid start end c
on_grid-first start end c = ground arith

candidates_ok :
    (start end : ℕ)
    → ltb end start ≡ false
    → end + 2 * energy_frame < u64_mod
    → absolute_grid_candidates start end ≡ ok (grid_loop (suc end) (first_on_grid start) end)
unfolding absolute_grid_candidates
candidates_ok start end h word = ground arith

candidates_none :
    (start end : ℕ) → ltb end start ≡ true → absolute_grid_candidates start end ≡ ok []
unfolding absolute_grid_candidates
candidates_none start end h = ground arith

-- The candidates between two positions are computed without an overflow, and are exactly the multiples
-- of the energy frame from the first position to the last, both included.
pub absolute_grid_candidates_exact :
    (start end : ℕ)
    → end + 2 * energy_frame < u64_mod
    → (cs : List ℕ) × (absolute_grid_candidates start end ≡ ok cs)
      × ((c : ℕ) → any (λ x. x == c) cs ≡ (leb start c && leb c end && c % energy_frame == 0))
absolute_grid_candidates_exact start end word = elim (Bool-cases (ltb end start)) [
  | inl past ↦ ([], candidates_none start end past, λ c. grid-empty start end c past)
  | inr inside ↦ (
    grid_loop (suc end) (first_on_grid start) end,
    candidates_ok start end inside word,
    λ c.
        grid_loop_exact (suc end) (first_on_grid start) end c (first_aligned start) (omega arith)
          (omega arith)
        ∙ on_grid-first start end c,
  )
]
