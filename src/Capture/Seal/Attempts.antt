-- ===== src/Capture/Seal/Attempts.antt =====
-- src-tauri/src/capture/seal.rs: attempts to seal a chunk that fail or are stopped anywhere, and the one after.
use life_sub.Common.{
  ℕ, ◌≡◌, refl, ap, inl, inr, ◌⊎◌, Bool, Option, none, some, List, [], ◌∷◌, String, Result, ok, err,
}
use life_sub.Capture.Seal.{
  AudioChunk, NativeChunkSealRequest, RegularFile, IoKind, not_found, NativeChunkSealError,
  chunk_of, intent_of, validated_names,
}
use life_sub.Capture.Seal.Insert.{CaptureCatalog, chunk_row}
use life_sub.Capture.Seal.Files.{World, Io, found}
use life_sub.Capture.Seal.Sealer.{confirm, seal_new}
use life_sub.Capture.Seal.Places.{
  Place, waiting, intended, moved, recorded, settled, After, At, IsReliable, Broken, intent_at,
  catalog_at,
}
use life_sub.Capture.Seal.Runs.{run_then, run_next, run_via, run_guard, run_pure, run_inspect}
use life_sub.Capture.Seal.Steps.{str_eq_refl, write_intent-Moves}
use life_sub.Capture.Seal.Sealer.{seal, seal_chunk}
use life_sub.Capture.Seal.Steps.{reconcile-Moves, read_intent-Runs}
use life_sub.Capture.Seal.Publishing.{weak, finished, publish-Runs}
use life_sub.Capture.Seal.Sealable.{intent_eq_refl, IsSealable}
use life_sub.Capture.Seal.Recovers.{
  Stands, Seals, Continues, one, complete_published-Seals, row_read, row_there, confirm-Seals,
  seal_new-Seals,
}

-- The world after attempts, each with the answers to its calls.
unfoldable pub after_attempts :
    (List ℕ → String) → NativeChunkSealRequest → List (ℕ → Bool) → World → World
unfolding seal
after_attempts sha256 request [] w = w
after_attempts sha256 request (answers ∷ attempts) w =
    after_attempts sha256 request attempts ((seal sha256 answers request w).0)

module _ (sha256 : List ℕ → String) (request : NativeChunkSealRequest) (final_name : String)
    (file : RegularFile) (before : CaptureCatalog)
    (sealable : IsSealable sha256 request final_name file before) where
  module _ (answers : ℕ → Bool) where
    abbrev StandsAt : Place → World → Type 0
    StandsAt = Stands sha256 answers request final_name file before sealable

    abbrev SealsFrom : Place → Io NativeChunkSealError AudioChunk → Type 0
    SealsFrom = Seals sha256 answers request final_name file before sealable

    abbrev RestSeals : Place → Option AudioChunk → Type 0
    RestSeals p row = SealsFrom p (elim row [
      | some existing ↦
          confirm sha256 answers request (chunk_of request final_name) existing
            (intent_at request final_name file before p)
      | none ↦
          seal_new sha256 answers request (chunk_of request final_name)
            (intent_at request final_name file before p)
    ])

    started :
        (p : Place) (row : Option AudioChunk)
        → chunk_row request.chunk_id (catalog_at request final_name file before p).chunks ≡ row
        → RestSeals p row
        → SealsFrom p (seal_chunk sha256 answers request (chunk_of request final_name))
    unfolding seal_chunk At
    started p row read rest =
        run_next _ _ (one sha256 answers request final_name file before sealable p _) (
          run_next _ _
            (run_via _ _ (
              weak sha256 answers request final_name file before sealable p p _
                (reconcile-Moves sha256 answers request final_name file before p)))
            (run_then _ _
              (weak sha256 answers request final_name file before sealable p p _
                (read_intent-Runs sha256 answers request final_name file before p))
              (run_then _ _
                (row_read sha256 answers request final_name file before sealable p _ row
                  (λ w (s, f, i, c). c) read)
                rest)))

    new_at :
        (p : Place) (r : Result IoKind RegularFile)
        → ((w : World) → StandsAt p w → w.catalog ≡ before)
        → ((w : World) → StandsAt p w → found w.published ≡ r)
        → Continues sha256 answers request final_name file before sealable p
            (intent_at request final_name file before p)
            r
        → SealsFrom p (
            seal_new sha256 answers request
              (chunk_of request final_name)
              (intent_at request final_name file before p))
    new_at p r = seal_new-Seals sha256 answers request final_name file before sealable p _ r

    from_waiting : RestSeals waiting none
    unfolding At
    from_waiting =
        new_at waiting (err not_found) (λ w (s, f, i, c). c) (λ w (s, f, i, c). ap found f)
          (publish-Runs sha256 answers request final_name file before sealable waiting none
            (λ w (s, f, i, c). s)
            (write_intent-Moves sha256 answers request final_name file before))

    from_intended : RestSeals intended none
    unfolding At
    from_intended =
        new_at intended (err not_found) (λ w (s, f, i, c). c) (λ w (s, f, i, c). ap found f)
          (publish-Runs sha256 answers request final_name file before sealable intended _
            (λ w (s, f, i, c). s) (run_guard _ _ (intent_eq_refl _)))

    from_moved : RestSeals moved none
    unfolding At
    from_moved =
        new_at moved (ok file) (λ w (s, f, i, c). c) (λ w (s, f, i, c). ap found f)
          (complete_published-Seals sha256 answers request final_name file before sealable)

    from_recorded : RestSeals recorded (some (chunk_of request final_name))
    unfolding At
    from_recorded =
        confirm-Seals sha256 answers request final_name file before sealable recorded _
          (λ w (s, f, i, c). f) (λ w (s, f, i, c). c)
          (rw (intent_eq_refl (intent_of request (chunk_of request final_name)))
            (finished sha256 answers request final_name file before sealable))

    from_settled : RestSeals settled (some (chunk_of request final_name))
    unfolding At
    from_settled =
        confirm-Seals sha256 answers request final_name file before sealable settled none
          (λ w (s, f, i, c). f) (λ w (s, f, i, c). c) (run_pure tt)

    seal_chunk-Seals :
        (p : Place) → SealsFrom p (seal_chunk sha256 answers request (chunk_of request final_name))
    seal_chunk-Seals waiting = started waiting none sealable.no_row from_waiting
    seal_chunk-Seals intended = started intended none sealable.no_row from_intended
    seal_chunk-Seals moved = started moved none sealable.no_row from_moved
    seal_chunk-Seals recorded =
        started recorded _ (row_there sha256 answers request final_name file before sealable)
          from_recorded
    seal_chunk-Seals settled =
        started settled _ (row_there sha256 answers request final_name file before sealable)
          from_settled

    seal-Seals : (p : Place) → SealsFrom p (seal sha256 answers request)
    unfolding seal
    seal-Seals p =
        run_then _ _
          (run_inspect (λ _. validated_names request.relative_staging_path request.chunk_id)
            final_name (λ w h. sealable.has_name))
          (run_next _ _
            (run_guard _ _
              (rw (sealable.is_captured, sealable.same_id, str_eq_refl request.chunk_id) refl))
            (seal_chunk-Seals p))

  abbrev IsAt : Place → World → Type 0
  IsAt = At request final_name file before

  outcome :
      (answers : ℕ → Bool) (x : World × Result NativeChunkSealError AudioChunk)
      → After
          (λ a v. (a ≡ chunk_of request final_name) × IsAt settled v)
          (Broken request final_name file before answers)
          x
      → ((x.1 ≡ ok (chunk_of request final_name)) × IsAt settled x.0)
        ⊎ ((q : Place) × IsAt q x.0 × (IsReliable answers → ⊥))
  outcome answers (w, ok a) (same, h) = inl (ap (λ a. ok a) same, h)
  outcome answers (w, err e) (q, (h, unreliable)) = inr (q, h, unreliable)

  -- Whatever calls of an attempt fail, and wherever it is stopped, from a place that an attempt leaves the file at
  -- the attempt returns the chunk, with the file under its final name, its row in the catalog and no intent; or
  -- some call failed, and the file is again at such a place, under one name and not lost. The file's bytes are
  -- those of the request, and the catalog admits the chunk.
  pub seal_keeps_file :
      (answers : ℕ → Bool) (p : Place) (w : World)
      → IsAt p w
      → (((seal sha256 answers request w).1 ≡ ok (chunk_of request final_name))
          × IsAt settled ((seal sha256 answers request w).0))
        ⊎ ((q : Place) × IsAt q ((seal sha256 answers request w).0) × (IsReliable answers → ⊥))
  seal_keeps_file answers p w h =
      outcome answers (seal sha256 answers request w) ((seal-Seals answers p).run w h)

  after_attempts_at :
      (attempts : List (ℕ → Bool)) (p : Place) (w : World)
      → IsAt p w
      → (q : Place) × IsAt q (after_attempts sha256 request attempts w)
  unfolding after_attempts
  after_attempts_at [] p w h = (p, h)
  after_attempts_at (answers ∷ attempts) p w h = elim (seal_keeps_file answers p w h) [
    | inl (_, h) ↦ after_attempts_at attempts settled _ h
    | inr (q, h, _) ↦ after_attempts_at attempts q _ h
  ]

  -- After any number of attempts at a staged file, each failed or stopped at any of its calls, an attempt whose
  -- calls succeed returns the chunk, with the file under its final name, its row in the catalog and no intent.
  -- The file's bytes are those of the request, and the catalog admits the chunk.
  pub seal-after_attempts :
      (attempts : List (ℕ → Bool)) (answers : ℕ → Bool) (w : World)
      → IsAt waiting w
      → IsReliable answers
      → ((seal sha256 answers request (after_attempts sha256 request attempts w)).1
          ≡ ok (chunk_of request final_name))
        × IsAt settled ((seal sha256 answers request (after_attempts sha256 request attempts w)).0)
  seal-after_attempts attempts answers w h reliable =
      let (q, there) = after_attempts_at attempts waiting w h in
      elim (seal_keeps_file answers q (after_attempts sha256 request attempts w) there) [
        | inl done ↦ done
        | inr (_, _, unreliable) ↦ elim (unreliable reliable) [ ]
      ]
