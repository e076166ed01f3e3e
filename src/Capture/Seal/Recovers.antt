-- ===== src/Capture/Seal/Recovers.antt =====
-- src-tauri/src/capture/seal.rs: attempts to seal a chunk, failed or stopped anywhere, and the attempt after.
use life_sub.Common.{
  ℕ, suc, ◌≡◌, refl, sym, ap, ◌∙◌, subst, inl, inr, Bool, true, false, Option, some, List, String,
  Result, ok, err, Bool-cases,
}
use life_sub.Capture.Seal.{
  AudioChunk, CaptureChunkTiming, NativeSealIntent, NativeChunkSealRequest, RegularFile, IoKind,
  not_found, already_exists, other_kind, NativeChunkSealError, io, chunk_of, intent_of,
}
use life_sub.Capture.Seal.Insert.{CaptureCatalog, chunk_row, capture_chunk_timing}
use life_sub.Capture.Seal.Files.{
  World, Io, throw, ◌>>=◌, ◌>>◌, attempt, call, open_published, load_chunk, load_timing, found,
}
use life_sub.Capture.Seal.Sealer.{verify_file, publish, complete_published, confirm, seal_new}
use life_sub.Capture.Seal.Places.{
  Place, moved, recorded, settled, After, At, after_insert, absurd_answer,
}
use life_sub.Capture.Seal.Runs.{Runs, run_then, run_next, run_via, run_guard, run_pure, run_inspect}
use life_sub.Capture.Seal.Steps.{str_eq_refl}
use life_sub.Capture.Seal.Intents.{forgotten_if}
use life_sub.Capture.Seal.Publishing.{
  PlaceOf, StuckOf, BrokenOf, a_call, verified, open_final, weak, finished, row_inserted,
}
use life_sub.Capture.Seal.Sealable.{chunk_eq_refl, timing_eq_refl, intent_eq_refl, IsSealable}

module _ (sha256 : List ℕ → String) (answers : ℕ → Bool) (request : NativeChunkSealRequest)
    (final_name : String) (file : RegularFile) (before : CaptureCatalog)
    (sealable : IsSealable sha256 request final_name file before) where
  abbrev pub Stands : Place → World → Type 0
  Stands = PlaceOf sha256 answers request final_name file before sealable

  abbrev Halts : Place → World → Type 0
  Halts = StuckOf sha256 answers request final_name file before sealable

  abbrev pub Breaks : World → Type 0
  Breaks = BrokenOf sha256 answers request final_name file before sealable

  abbrev pub Seals : Place → Io NativeChunkSealError AudioChunk → Type 0
  Seals p m = Runs (Stands p) (Stands settled) (chunk_of request final_name) Breaks m

  abbrev pub Holds : {E A : Type 0} → Place → A → Io E A → Type 0
  Holds p c m = Runs (Stands p) (Stands p) c Breaks m

  pub one : {E : Type 0} (p : Place) (e : E) → Holds p tt (call answers e)
  one p e =
      weak sha256 answers request final_name file before sealable p p _
        (a_call sha256 answers request final_name file before sealable p e)

  same_bytes :
      (p : Place) → Holds p tt (verify_file sha256 answers file (chunk_of request final_name))
  same_bytes p =
      weak sha256 answers request final_name file before sealable p p _
        (verified sha256 answers request final_name file before sealable p)

  pub complete_published-Seals : Seals moved (
      complete_published sha256 answers request
        (chunk_of request final_name)
        file
        (some (intent_of request (chunk_of request final_name))))
  unfolding complete_published
  complete_published-Seals = run_next _ _ (run_guard _ _ (intent_eq_refl _)) (
      run_next _ _ (one moved _) (
        run_next _ _ (run_via _ _ (same_bytes moved)) (
          run_next _ _ (run_via _ _ (one moved _)) (
            run_then _ _
              (run_via _ _ (
                weak sha256 answers request final_name file before sealable moved recorded _
                  (row_inserted sha256 answers request final_name file before sealable)))
              (run_next _ _ (finished sha256 answers request final_name file before sealable)
                (run_pure _))))))

  timing_there :
      capture_chunk_timing request.chunk_id (after_insert request final_name file before).timings
      ≡ some request.timing
  unfolding capture_chunk_timing
  timing_there = rw (sealable.same_id, str_eq_refl request.chunk_id) refl

  pub row_there :
      chunk_row request.chunk_id (after_insert request final_name file before).chunks
      ≡ some (chunk_of request final_name)
  unfolding chunk_row
  row_there = rw (str_eq_refl request.chunk_id) refl

  pub timing_read :
      (p : Place) (c : CaptureCatalog) (o : Option CaptureChunkTiming)
      → ((w : World) → Stands p w → w.catalog ≡ c)
      → capture_chunk_timing request.chunk_id c.timings ≡ o
      → Holds p o (load_timing answers request.chunk_id)
  unfolding load_timing
  timing_read p c o known read = run_next _ _ (one p _) (
      run_inspect (λ w. ok (capture_chunk_timing request.chunk_id w.catalog.timings)) o
        (λ w h.
          ap (λ c. ok (capture_chunk_timing request.chunk_id c.timings)) (known w h)
          ∙ ap (λ t. ok t) read))

  pub row_read :
      (p : Place) (c : CaptureCatalog) (o : Option AudioChunk)
      → ((w : World) → Stands p w → w.catalog ≡ c)
      → chunk_row request.chunk_id c.chunks ≡ o
      → Holds p o (load_chunk answers request.chunk_id)
  unfolding load_chunk
  row_read p c o known read = run_next _ _ (one p _) (
      run_inspect (λ w. ok (chunk_row request.chunk_id w.catalog.chunks)) o
        (λ w h.
          ap (λ c. ok (chunk_row request.chunk_id c.chunks)) (known w h) ∙ ap (λ t. ok t) read))

  pub confirm-Seals :
      (p : Place) (o : Option NativeSealIntent)
      → ((w : World) → Stands p w → w.published ≡ some file)
      → ((w : World) → Stands p w → w.catalog ≡ after_insert request final_name file before)
      → Runs
          (Stands p)
          (Stands settled)
          tt
          Breaks
          (forgotten_if answers request (chunk_of request final_name) o)
      → Seals p (
          confirm sha256 answers request
            (chunk_of request final_name)
            (chunk_of request final_name)
            o)
  unfolding confirm
  confirm-Seals p o there listed forgets = run_then _ _ (timing_read p _ _ listed timing_there) (
      run_next _ _
        (run_guard _ _
          (rw (chunk_eq_refl (chunk_of request final_name)) (timing_eq_refl request.timing)))
        (run_next _ _ (one p _) (
          run_then _ _
            (run_via _ _ (
              weak sha256 answers request final_name file before sealable p p _
                (open_final sha256 answers request final_name file before sealable p there)))
            (run_next _ _ (same_bytes p) (run_next _ _ forgets (run_pure _))))))

  answered :
      {B : Type 0} (k : Result IoKind RegularFile → Io NativeChunkSealError B)
      (r : Result IoKind RegularFile) (w : World)
      → answers w.calls ≡ true
      → found w.published ≡ r
      → (attempt (open_published answers) >>= k) w ≡ k r (record w { calls = suc w.calls })
  unfolding open_published attempt ◌>>=◌ ◌>>◌ call
  answered k r w yes_answer there = rw (yes_answer, there) refl

  refused :
      {B : Type 0} (k : Result IoKind RegularFile → Io NativeChunkSealError B) (w : World)
      → answers w.calls ≡ false
      → (attempt (open_published answers) >>= k) w
        ≡ k (err other_kind) (record w { calls = suc w.calls })
  unfolding open_published attempt ◌>>=◌ ◌>>◌ call
  refused k w no_answer = rw no_answer refl

  one_more : (p : Place) (w : World) → Stands p w → Stands p (record w { calls = suc w.calls })
  unfolding At
  one_more p w h = h

  opened :
      {B : Type 0} (Q : B → World → Type 0) (p : Place)
      (k : Result IoKind RegularFile → Io NativeChunkSealError B) (r : Result IoKind RegularFile)
      (w : World)
      → found w.published ≡ r
      → Stands p w
      → ((v : World) → Stands p v → After Q Breaks (k r v))
      → ((v : World) → Halts p v → After Q Breaks (k (err other_kind) v))
      → After Q Breaks ((attempt (open_published answers) >>= k) w)
  opened Q p k r w there h next stuck = elim (Bool-cases (answers w.calls)) [
    | inl yes_answer ↦
        subst (After Q Breaks) (sym (answered k r w yes_answer there))
          (next (record w { calls = suc w.calls }) (one_more p w h))
    | inr no_answer ↦ subst (After Q Breaks) (sym (refused k w no_answer)) (
        stuck (record w { calls = suc w.calls })
          (one_more p w h, λ all. absurd_answer (all w.calls) no_answer))
  ]

  -- What a seal does after it has tried to open the file under the final name.
  abbrev pub Continues : Place → Option NativeSealIntent → Result IoKind RegularFile → Type 0
  Continues p o r = Seals p (elim r [
    | ok file ↦ complete_published sha256 answers request (chunk_of request final_name) file o
    | err not_found ↦ publish sha256 answers request (chunk_of request final_name) o
    | err already_exists ↦ throw (io already_exists)
    | err other_kind ↦ throw (io other_kind)
  ])

  pub seal_new-Seals :
      (p : Place) (o : Option NativeSealIntent) (r : Result IoKind RegularFile)
      → ((w : World) → Stands p w → w.catalog ≡ before)
      → ((w : World) → Stands p w → found w.published ≡ r)
      → Continues p o r
      → Seals p (seal_new sha256 answers request (chunk_of request final_name) o)
  unfolding seal_new throw
  seal_new-Seals p o r listed there continues =
      run_then _ _ (timing_read p _ _ listed sealable.no_timing) (
        run_next _ _ (run_guard _ _ refl) (
          run_next _ _ (one p _) (record {
            run = λ w h.
                opened (λ a v. (a ≡ chunk_of request final_name) × Stands settled v) p _ r w
                  (there w h) h continues.run (λ v stuck. (p, stuck));
          })))
