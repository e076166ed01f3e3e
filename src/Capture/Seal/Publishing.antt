-- ===== src/Capture/Seal/Publishing.antt =====
-- src-tauri/src/capture/seal.rs: the three ways of a seal, by the place it starts from.
use life_sub.Common.{ℕ, ◌≡◌, refl, sym, ap, ◌∙◌, subst, Bool, Option, some, List, String}
use life_sub.Capture.Seal.{
  NativeSealIntent, NativeChunkSealRequest, RegularFile, NativeChunkSealError, chunk_of, intent_of,
}
use life_sub.Capture.Seal.Insert.{CaptureCatalog, insert_native_capture_chunk, inserted}
use life_sub.Capture.Seal.Files.{
  World, Io, pure, throw, ◌>>◌, call, open_staged, open_published, insert_chunk, found, settle_row,
}
use life_sub.Capture.Seal.Sealer.{verify_file, validate_published, move_to_final, publish}
use life_sub.Capture.Seal.Intents.{
  restore_staging, restore_or_recovery, forget_intent, check_staged, record_row, intend,
  insert_error, rename_error,
}
use life_sub.Capture.Seal.Places.{Place, waiting, intended, moved, recorded, settled, After, At}
use life_sub.Capture.Seal.Runs.{
  Runs, run_then, run_next, run_weaken, run_via, run_attempt, run_guard, run_pure, run_inspect,
  run_into, run_stops, Fails, fails, failing,
}
use life_sub.Capture.Seal.Steps.{
  StuckAt, BrokenOff, AtPlace, one_call, verify_file-Moves, forgotten, withdrawn, published,
  taken_back,
}
use life_sub.Capture.Seal.Sealable.{eq_refl, IsSealable}

module _ (sha256 : List ℕ → String) (answers : ℕ → Bool) (request : NativeChunkSealRequest)
    (final_name : String) (file : RegularFile) (before : CaptureCatalog)
    (sealable : IsSealable sha256 request final_name file before) where
  abbrev pub PlaceOf : Place → World → Type 0
  PlaceOf = AtPlace sha256 answers request final_name file before

  abbrev pub StuckOf : Place → World → Type 0
  StuckOf = StuckAt sha256 answers request final_name file before

  abbrev pub BrokenOf : World → Type 0
  BrokenOf = BrokenOff sha256 answers request final_name file before

  pub a_call :
      {E : Type 0} (p : Place) (e : E)
      → Runs (PlaceOf p) (PlaceOf p) tt (StuckOf p) (call answers e)
  a_call = one_call sha256 answers request final_name file before

  pub verified :
      (p : Place)
      → Runs
          (PlaceOf p)
          (PlaceOf p)
          tt
          (StuckOf p)
          (verify_file sha256 answers file (chunk_of request final_name))
  verified p =
      verify_file-Moves sha256 answers request final_name file before p sealable.same_length
        sealable.same_digest

  pub open_final :
      (p : Place)
      → ((w : World) → PlaceOf p w → w.published ≡ some file)
      → Runs (PlaceOf p) (PlaceOf p) file (StuckOf p) (open_published answers)
  unfolding open_published
  open_final p there =
      run_next _ _ (a_call p _)
        (run_inspect (λ w. found w.published) _ (λ w h. ap found (there w h)))

  open_staging :
      (p : Place)
      → ((w : World) → PlaceOf p w → w.staged ≡ some file)
      → Runs (PlaceOf p) (PlaceOf p) file (StuckOf p) (open_staged answers)
  unfolding open_staged
  open_staging p there =
      run_next _ _ (a_call p _) (run_inspect (λ w. found w.staged) _ (λ w h. ap found (there w h)))

  pub weak :
      {E A : Type 0} {c : A} (p q : Place) (m : Io E A)
      → Runs (PlaceOf p) (PlaceOf q) c (StuckOf p) m
      → Runs (PlaceOf p) (PlaceOf q) c BrokenOf m
  weak p q m = run_weaken m (λ w h. (p, h))

  -- An intent that is forgotten after the row is written.
  pub finished : Runs (PlaceOf recorded) (PlaceOf settled) tt BrokenOf (forget_intent answers)
  finished =
      run_next _ _
        (weak _ _ _ (run_via _ _ (forgotten sha256 answers request final_name file before)))
        (weak _ _ _ (run_via _ _ (a_call settled _)))

  validated :
      Runs
        (PlaceOf moved)
        (PlaceOf moved)
        tt
        (StuckOf moved)
        (validate_published sha256 answers file (chunk_of request final_name))
  unfolding validate_published At
  validated = run_then _ _ (run_via _ _ (open_final moved (λ w (s, f, i, c). f))) (
      run_next _ _ (a_call moved _) (
        run_next _ _ (run_guard _ _ (eq_refl _))
          (run_next _ _ (verified moved) (run_via _ _ (a_call moved _)))))

  pub row_inserted :
      Runs
        (PlaceOf moved)
        (PlaceOf recorded)
        inserted
        (StuckOf moved)
        (insert_chunk answers (chunk_of request final_name) request.timing)
  unfolding insert_chunk At
  row_inserted = run_next _ _ (a_call moved _) (record {
    run = λ w (s, f, i, c).
        subst
          (λ r. After (λ a v. (a ≡ inserted) × PlaceOf recorded v) (StuckOf moved) (settle_row w r))
          (sym (
            ap (insert_native_capture_chunk (chunk_of request final_name) request.timing) c
            ∙ sealable.is_inserted))
          (refl, (s, f, i, refl));
  })

  -- The file goes back to where it was staged, or stays.
  restored :
      (e : NativeChunkSealError) (w : World)
      → StuckOf moved w
      → Fails BrokenOf (restore_or_recovery answers {A = Unit {0}} e w)
  unfolding restore_or_recovery restore_staging throw
  restored e w (h, unreliable) = fails BrokenOf _ (
      run_attempt BrokenOf (λ _ _. ⊥) BrokenOf (restore_staging answers) _
        (run_next _ _ (weak _ _ _ (taken_back sha256 answers request final_name file before))
          (weak _ _ _ (run_next _ _ (a_call intended _) (a_call intended _))))
        (λ v at.
          run_attempt BrokenOf (λ _ _. ⊥) BrokenOf _ _
            (run_next _ _ (weak _ _ _ (withdrawn sha256 answers request final_name file before))
              (weak _ _ _ (a_call waiting _)))
            (λ u at. (waiting, (at, unreliable))) (λ e u b. b) v at)
        (λ e v b. b) w h)

  -- The intent is forgotten after a rename that failed.
  given_up :
      (e : NativeChunkSealError) (w : World)
      → StuckOf intended w
      → Fails BrokenOf ((forget_intent answers >> throw {A = Unit {0}} e) w)
  unfolding throw
  given_up e w (h, unreliable) = fails BrokenOf _ (
      run_into (λ _ _. ⊥) _ _
        (run_next _ _
          (weak _ _ _ (run_via _ _ (withdrawn sha256 answers request final_name file before)))
          (weak _ _ _ (run_via _ _ (a_call waiting _))))
        (λ v at. (waiting, (at, unreliable))) w h)

  pub still_staged : (w : World) → PlaceOf intended w → w.staged ≡ some file
  unfolding At
  still_staged w (s, f, i, c) = s

  check_staged-Runs :
      Runs (PlaceOf intended) (PlaceOf intended) tt BrokenOf (check_staged answers file)
  unfolding check_staged throw
  check_staged-Runs = record {
    run = λ w h.
        run_attempt (StuckOf intended) (λ a v. (a ≡ tt) × PlaceOf intended v) BrokenOf _ _
          (open_staging intended still_staged)
          (λ v at.
            (run_next _ _ (weak intended intended _ (a_call intended _))
                (run_guard _ _ (eq_refl _))).run
              v at)
          (λ e v stuck. (intended, stuck)) w h;
  }

  move_to_final-Runs :
      Runs
        (PlaceOf intended)
        (PlaceOf moved)
        tt
        BrokenOf
        (move_to_final sha256 answers file (chunk_of request final_name))
  unfolding move_to_final pure
  move_to_final-Runs = record {
    run = λ w h.
        run_attempt (StuckOf intended) (λ a v. (a ≡ tt) × PlaceOf moved v) BrokenOf _ _
          (published sha256 answers request final_name file before)
          (λ v at.
            run_into (λ a v. (a ≡ tt) × PlaceOf moved v) {R = BrokenOf} _ _ (run_pure tt)
              (λ v at.
                run_attempt (StuckOf moved) (λ a v. (a ≡ tt) × PlaceOf moved v) BrokenOf _ _
                  validated (λ u at. (refl, at))
                  (λ e u stuck.
                    failing (λ a v. (a ≡ tt) × PlaceOf moved v) BrokenOf
                      (restore_or_recovery answers e u) (restored e u stuck))
                  v at)
              v at)
          (λ e v stuck.
            run_stops (λ a v. (a ≡ tt) × PlaceOf moved v) BrokenOf _ _ v
              (given_up (rename_error e) v stuck))
          w h;
  }

  record_row-Runs :
      Runs
        (PlaceOf moved)
        (PlaceOf settled)
        (chunk_of request final_name)
        BrokenOf
        (record_row answers request (chunk_of request final_name))
  unfolding record_row
  record_row-Runs = record {
    run = λ w h.
        run_attempt (StuckOf moved) (λ a v. (a ≡ chunk_of request final_name) × PlaceOf settled v)
          BrokenOf _ _ row_inserted
          (λ v at. (run_next _ _ (run_pure tt) (run_next _ _ finished (run_pure _))).run v at)
          (λ e v stuck.
            run_stops (λ a v. (a ≡ chunk_of request final_name) × PlaceOf settled v) BrokenOf _ _ v
              (restored (insert_error e) v stuck))
          w h;
  }

  pub publish-Runs :
      (p : Place) (o : Option NativeSealIntent)
      → ((w : World) → PlaceOf p w → w.staged ≡ some file)
      → Runs
          (PlaceOf p)
          (PlaceOf intended)
          tt
          BrokenOf
          (intend answers (intent_of request (chunk_of request final_name)) o)
      → Runs
          (PlaceOf p)
          (PlaceOf settled)
          (chunk_of request final_name)
          BrokenOf
          (publish sha256 answers request (chunk_of request final_name) o)
  unfolding publish
  publish-Runs p o there intends = run_then _ _ (weak _ _ _ (run_via _ _ (open_staging p there))) (
      run_next _ _ (weak _ _ _ (a_call p _)) (
        run_next _ _ (weak _ _ _ (verified p)) (
          run_next _ _ intends (
            run_next _ _ (weak _ _ _ (run_via _ _ (a_call intended _)))
              (run_next _ _ check_staged-Runs (run_next _ _ move_to_final-Runs record_row-Runs))))))
