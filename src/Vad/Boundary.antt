-- ===== src/Vad/Boundary.antt =====
-- The choice of a cut: it always succeeds, between the cursor and the last safe position.
use Prim.Native.Nat.{Ordering}
use life_sub.Common.{
  ℕ, ◌+◌, ◌-◌, ◌%◌, ◌≤◌, ◌<◌, ◌≡◌, refl, ◌⊎◌, true, Option, some, none, List, [], ◌∷◌, ok, arith,
  All, length, u64_mod, Bool-cases, inl, inr, leb, take, drop, any, ◌&&◌, ◌==◌,
}
use life_sub.Common.Floats.{Floats}
use life_sub.Audio.{SampleRange}
use life_sub.Vad.Select.{
  split_search_radius, energy_frame, min_candidate, comes_before, select_boundary, score_candidate,
  score_candidates, is_scored, energy_half_frame, frame_energy, select_split_boundary,
  checked_sub_or_zero,
}
use life_sub.Vad.Grid.{absolute_grid_candidates_exact}

module _ (fl : Floats) where
  open fl use {F32, F64}

  module _ {κ} (P : ℕ × F64 → Type κ) where
    min_candidate-All :
        (best : ℕ × F64) (cs : List (ℕ × F64)) → P best → All P cs → P (min_candidate fl best cs)
    unfolding min_candidate
    min_candidate-All best [] p ps = p
    min_candidate-All best (c ∷ cs) p ps =
        min_candidate-All (elim (comes_before fl best c) [ Ordering.gt ↦ c | _ ↦ best ]) cs
          (kept (comes_before fl best c)) ps.1
      where
        kept : (o : Ordering) → P (elim o [ Ordering.gt ↦ c | _ ↦ best ])
        kept Ordering.gt = ps.0
        kept Ordering.lt = p
        kept Ordering.eq = p

  -- A position where the core may be cut.
  abbrev pub IsCut : ℕ → ℕ → ℕ → Type 0
  IsCut cursor latest_safe b =
      (cursor < b) × (b ≤ latest_safe) × ((b ≡ latest_safe) ⊎ (b % energy_frame ≡ 0))

  select_boundary-IsCut :
      (cursor latest_safe : ℕ) (scored : List (ℕ × F64))
      → cursor < latest_safe
      → All (λ c. IsCut cursor latest_safe c.0) scored
      → IsCut cursor latest_safe (select_boundary fl latest_safe scored)
  unfolding select_boundary
  select_boundary-IsCut cursor latest_safe [] h ps = omega arith
  select_boundary-IsCut cursor latest_safe (c ∷ cs) h ps =
      min_candidate-All (λ c. IsCut cursor latest_safe c.0) c cs ps.0 ps.1

  module _ (samples : List F32) (core : SampleRange) (cursor latest_safe : ℕ) where
    abbrev Scores : Option (ℕ × F64) → Type 0
    Scores none = Unit {0}
    Scores (some s) = IsCut cursor latest_safe s.0

    is_scored-IsCut :
        (c : ℕ)
        → is_scored fl samples core cursor latest_safe c ≡ true
        → IsCut cursor latest_safe c × (c + energy_half_frame ≤ length samples)
    unfolding is_scored
    is_scored-IsCut c h = (ground arith, ground arith)

    score_candidate_ok :
        (c : ℕ)
        → length samples < u64_mod
        → c + split_search_radius < u64_mod
        → (scored : Option (ℕ × F64)) × (score_candidate fl samples core cursor latest_safe c
            ≡ ok scored)
          × Scores scored
    unfolding score_candidate
    score_candidate_ok c word fits = elim (Bool-cases (leb energy_half_frame c)) [
      | inr early ↦ (none, rw (early, score_candidate), tt)
      | inl late ↦ elim (Bool-cases (is_scored fl samples core cursor latest_safe c)) [
        | inr skipped ↦ (none, ground arith, tt)
        | inl taken ↦
            let (cut, inside) = is_scored-IsCut c taken in
            (
              some (
                c,
                frame_energy fl (
                    take (c + energy_half_frame - (c - energy_half_frame))
                      (drop (c - energy_half_frame) samples)),
              ),
              ground arith,
              cut,
            )
      ]
    ]

    score_candidates_ok :
        (cs : List ℕ)
        → length samples < u64_mod
        → All (λ c. c + split_search_radius < u64_mod) cs
        → (scored : List (ℕ × F64)) × (score_candidates fl samples core cursor latest_safe cs
            ≡ ok scored)
          × All (λ s. IsCut cursor latest_safe s.0) scored
    unfolding score_candidates
    score_candidates_ok [] word fits = ([], refl, tt)
    score_candidates_ok (c ∷ cs) word fits =
        let (s, es, ps) = score_candidate_ok c word fits.0 in
        let (rest, er, pr) = score_candidates_ok cs word fits.1 in joined s rest es er ps pr
      where
        joined :
            (s : Option (ℕ × F64)) (rest : List (ℕ × F64))
            → score_candidate fl samples core cursor latest_safe c ≡ ok s
            → score_candidates fl samples core cursor latest_safe cs ≡ ok rest
            → Scores s
            → All (λ s. IsCut cursor latest_safe s.0) rest
            → (scored : List (ℕ × F64)) × (score_candidates fl samples core cursor latest_safe
                  (c ∷ cs)
                ≡ ok scored)
              × All (λ s. IsCut cursor latest_safe s.0) scored
        joined none rest es er ps pr = (rest, rw (es, er), pr)
        joined (some x) rest es er ps pr = (x ∷ rest, rw (es, er), (ps, pr))

All-of_any :
    (P : ℕ → Type 0) (cs : List ℕ) → ((c : ℕ) → any (λ x. x == c) cs ≡ true → P c) → All P cs
All-of_any P [] f = tt
All-of_any P (c ∷ cs) f = (f c (ground arith), All-of_any P cs (λ x h. f x (ground arith)))

candidates_word :
    (start end : ℕ) (cs : List ℕ)
    → ((c : ℕ) → any (λ x. x == c) cs ≡ (leb start c && leb c end && c % energy_frame == 0))
    → end + split_search_radius < u64_mod
    → All (λ c. c + split_search_radius < u64_mod) cs
candidates_word start end cs exact word = All-of_any _ cs (λ c h. ground (arith, exact c))

-- A cut is always found for a core within the recording, between a cursor inside the core and a last
-- safe position before its end: it lies after the cursor and not after the last safe position, and is
-- that position or a multiple of the energy frame. The recording is shorter than a word by the radius
-- of the search.
pub select_split_boundary_total :
    (fl : Floats) (samples : List fl.F32) (core : SampleRange) (cursor latest_safe : ℕ)
    → core.start ≤ cursor
    → cursor < latest_safe
    → latest_safe < core.end
    → core.end ≤ length samples
    → length samples + split_search_radius < u64_mod
    → (b : ℕ) × (select_split_boundary fl samples core cursor latest_safe none ≡ ok b)
      × (cursor < b)
      × (b ≤ latest_safe)
      × ((b ≡ latest_safe) ⊎ (b % energy_frame ≡ 0))
unfolding select_split_boundary
select_split_boundary_total fl samples core cursor latest_safe h1 h2 h3 h4 word =
    let (cs, ec, exact) =
      absolute_grid_candidates_exact (checked_sub_or_zero latest_safe split_search_radius)
        latest_safe (omega arith) in
    let (scored, es, cuts) =
      score_candidates_ok fl samples core cursor latest_safe cs (omega arith) (
        candidates_word (checked_sub_or_zero latest_safe split_search_radius) latest_safe cs exact
          (omega arith)) in
    let cut = select_boundary-IsCut fl cursor latest_safe scored h2 cuts in
    (select_boundary fl latest_safe scored, ground (arith, ec, es), cut.0, cut.1, cut.2)
