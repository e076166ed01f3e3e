-- ===== src/Capture/Seal/Places.antt =====
-- src-tauri/src/capture/seal.rs: where the file of a chunk stands between two attempts to seal it, and what
-- one call of the operating system does to that.
use life_sub.Common.{
  ℕ, suc, ◌≡◌, refl, sym, subst, inl, inr, Bool, true, false, Option, none, some, ◌∷◌, String,
  Result, ok, err, Bool-cases,
}
use life_sub.Capture.Seal.{
  NativeSealIntent, NativeChunkSealRequest, RegularFile, IoKind, chunk_of, intent_of,
}
use life_sub.Capture.Seal.Insert.{CaptureCatalog}
use life_sub.Capture.Seal.Files.{World, settle, call, change, ◌>>=◌, ◌>>◌}

-- The file is staged, staged with its intent written, under its final name, there with its row in the catalog,
-- or there with its row and without the intent.
pub data Place : Type 0 where
  waiting intended moved recorded settled : Place

-- What holds of the value and the world, or of the world at an error.
abbrev pub After :
    {E A : Type 0} → (A → World → Type 0) → (World → Type 0) → World × Result E A → Type 0
After Q R (w, ok a) = Q a w
After Q R (w, err e) = R w

-- Every call succeeds.
abbrev pub IsReliable : (ℕ → Bool) → Type 0
IsReliable answers = (n : ℕ) → answers n ≡ true

pub absurd_answer : {b : Bool} → b ≡ true → b ≡ false → ⊥
absurd_answer h k = cc

module _ (request : NativeChunkSealRequest) (final_name : String) (file : RegularFile)
    (before : CaptureCatalog) where
  abbrev pub after_insert : CaptureCatalog
  after_insert = record before {
    chunks = chunk_of request final_name ∷ before.chunks;
    timings = request.timing ∷ before.timings;
  }

  abbrev pub staged_at : Place → Option RegularFile
  staged_at waiting = some file
  staged_at intended = some file
  staged_at _ = none

  abbrev pub published_at : Place → Option RegularFile
  published_at waiting = none
  published_at intended = none
  published_at _ = some file

  abbrev pub intent_at : Place → Option NativeSealIntent
  intent_at waiting = none
  intent_at settled = none
  intent_at _ = some (intent_of request (chunk_of request final_name))

  abbrev pub catalog_at : Place → CaptureCatalog
  catalog_at recorded = after_insert
  catalog_at settled = after_insert
  catalog_at _ = before

  unfoldable pub At : Place → World → Type 0
  At p w =
      (w.staged ≡ staged_at p)
      × (w.published ≡ published_at p)
      × (w.intent ≡ intent_at p)
      × (w.catalog ≡ catalog_at p)

  module _ (answers : ℕ → Bool) where
    -- A call failed, and the file is at the place.
    abbrev pub Stuck : Place → World → Type 0
    Stuck p w = At p w × (IsReliable answers → ⊥)

    abbrev pub Broken : World → Type 0
    Broken w = (p : Place) × Stuck p w

    pub called :
        {E : Type 0} (p : Place) (e : E) (w : World)
        → At p w
        → After (λ a v. (a ≡ tt) × At p v) (Stuck p) (call answers e w)
    unfolding call At
    called p e w h = elim (Bool-cases (answers w.calls)) [
      | inl yes_answer ↦ rw yes_answer (refl, h)
      | inr no_answer ↦ rw no_answer (h, λ all. absurd_answer (all w.calls) no_answer)
    ]

    pub changed :
        (p q : Place) (f : World → Result IoKind World) (w : World)
        → ((v : World) → At p v → (u : World) × (f v ≡ ok u) × At q u)
        → At p w
        → After (λ a v. (a ≡ tt) × At q v) (Stuck p) (change answers f w)
    unfolding change call ◌>>◌ ◌>>=◌ At
    changed p q f w step h = elim (Bool-cases (answers w.calls)) [
      | inl yes_answer ↦
          let (u, same, there) = step (record w { calls = suc w.calls }) h in
          rw yes_answer (
            subst
              (λ r.
                After (λ (a : Unit {0}) v. (a ≡ tt) × At q v) (Stuck p)
                  (settle (record w { calls = suc w.calls }) r))
              (sym same) (refl, there))
      | inr no_answer ↦ rw no_answer (h, λ all. absurd_answer (all w.calls) no_answer)
    ]
