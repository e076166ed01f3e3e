-- ===== src/Capture/Seal/Steps.antt =====
-- src-tauri/src/capture/seal.rs: where the parts of a seal leave the file.
use life_sub.Common.{
  ℕ, zero, suc, ◌≡◌, refl, ap, Bool, true, Option, none, some, List, String, Result, ok, ◌-◌,
  str_eq_iff, str_eq, length, arith,
}
use life_sub.Capture.Seal.{
  AudioChunk, NativeSealIntent, NativeChunkSealRequest, RegularFile, IoKind, other_kind,
  NativeChunkSealError, io, chunk_of, intent_of,
}
use life_sub.Capture.Seal.Insert.{CaptureCatalog}
use life_sub.Capture.Seal.Files.{
  World, Io, pure, throw, ◌>>=◌, call, change, rename_to_final, rename_to_staging, remove_intent,
  create_temp, unlink_temp, rename_temp_to_intent, rename_intent_to_temp, publish_file,
  take_file_back, drop_intent, add_temp, drop_temp, name_intent, unname_intent,
}
use life_sub.Capture.Seal.Sealer.{verify_file}
use life_sub.Capture.Seal.Intents.{
  cleanup_temp, cleanup_intent, cleanup_after_intent_failure, or_clean_up, write_intent,
  read_intent, reconcile_temps, reconcile_intent_directory,
}
use life_sub.Capture.Seal.Places.{
  Place, waiting, intended, moved, recorded, settled, After, At, Stuck, Broken, intent_at,
}
use life_sub.Capture.Seal.Runs.{
  Runs, run_then, run_next, run_weaken, run_via, run_attempt, run_guard, run_pure, run_call,
  run_change, run_inspect,
}

pub str_eq_refl : (s : String) → str_eq s s ≡ true
str_eq_refl s = (str_eq_iff s s).1 refl

module _ (sha256 : List ℕ → String) (answers : ℕ → Bool) (request : NativeChunkSealRequest)
    (final_name : String) (file : RegularFile) (before : CaptureCatalog) where
  abbrev pub chunk : AudioChunk
  chunk = chunk_of request final_name

  abbrev pub intent : NativeSealIntent
  intent = intent_of request chunk

  abbrev pub StuckAt : Place → World → Type 0
  StuckAt = Stuck request final_name file before answers

  abbrev pub BrokenOff : World → Type 0
  BrokenOff = Broken request final_name file before answers

  abbrev pub AtPlace : Place → World → Type 0
  AtPlace = At request final_name file before

  abbrev pub Moves : {E : Type 0} → Place → Place → (World → Type 0) → Io E (Unit {0}) → Type 0
  Moves p q R m = Runs (AtPlace p) (AtPlace q) tt R m

  broken : (p : Place) (w : World) → StuckAt p w → BrokenOff w
  broken p w h = (p, h)

  pub one_call : {E : Type 0} (p : Place) (e : E) → Moves p p (StuckAt p) (call answers e)
  one_call = run_call request final_name file before answers

  pub verify_file-Moves :
      (p : Place)
      → length file.bytes ≡ request.expected_byte_length
      → sha256 file.bytes ≡ request.expected_sha256
      → Moves p p (StuckAt p) (verify_file sha256 answers file chunk)
  unfolding verify_file
  verify_file-Moves p same_length same_digest = run_next _ _ (one_call p _) (
      run_next _ _ (run_guard _ _ (ground (arith, same_length)))
        (run_next _ _ (one_call p _) (run_guard _ _ (rw same_digest (str_eq_refl _)))))

  -- The changes, by the place they start from.
  pub one_change :
      (p q : Place) (f : World → Result IoKind World)
      → ((v : World) → AtPlace p v → (u : World) × (f v ≡ ok u) × AtPlace q u)
      → Moves p q (StuckAt p) (change answers f)
  one_change = run_change request final_name file before answers

  pub forgotten : Moves recorded settled (StuckAt recorded) (remove_intent answers)
  unfolding At
  forgotten =
      one_change recorded settled drop_intent
        (λ v (s, f, i, c). (record v { intent = none }, rw i refl, (s, f, refl, c)))

  pub withdrawn : Moves intended waiting (StuckAt intended) (remove_intent answers)
  unfolding At
  withdrawn =
      one_change intended waiting drop_intent
        (λ v (s, f, i, c). (record v { intent = none }, rw i refl, (s, f, refl, c)))

  unnamed : Moves intended waiting (StuckAt intended) (rename_intent_to_temp answers)
  unfolding At
  unnamed = one_change intended waiting unname_intent (λ v (s, f, i, c).
      (record v { intent = none; temps = suc v.temps }, rw i refl, (s, f, refl, c)))

  named : Moves waiting intended (StuckAt waiting) (rename_temp_to_intent answers intent)
  unfolding At
  named = one_change waiting intended (name_intent intent) (λ v (s, f, i, c).
      (record v { intent = some intent; temps = v.temps - 1 }, rw i refl, (s, f, refl, c)))

  pub published : Moves intended moved (StuckAt intended) (rename_to_final answers)
  unfolding At
  published = one_change intended moved publish_file (λ v (s, f, i, c).
      (record v { staged = none; published = some file }, rw (s, f) refl, (refl, refl, i, c)))

  pub taken_back : Moves moved intended (StuckAt moved) (rename_to_staging answers)
  unfolding At
  taken_back = one_change moved intended take_file_back (λ v (s, f, i, c).
      (record v { staged = some file; published = none }, rw (s, f) refl, (refl, refl, i, c)))

  temp_added : (p : Place) → Moves p p (StuckAt p) (create_temp answers)
  unfolding At
  temp_added p = one_change p p add_temp (λ v h. (record v { temps = suc v.temps }, refl, h))

  temp_dropped : (p : Place) → Moves p p (StuckAt p) (unlink_temp answers)
  unfolding At
  temp_dropped p = one_change p p drop_temp (λ v h. (record v { temps = v.temps - 1 }, refl, h))

  cleanup_temp-Moves : (p : Place) → Moves p p (StuckAt p) (cleanup_temp answers)
  unfolding cleanup_temp
  cleanup_temp-Moves p = run_next _ _ (one_call p _) (
      run_next _ _ (one_call p _)
        (run_next _ _ (one_call p _) (run_next _ _ (temp_dropped p) (one_call p _))))

  reconcile_temps-Moves : (p : Place) (n : ℕ) → Moves p p (StuckAt p) (reconcile_temps answers n)
  unfolding reconcile_temps
  reconcile_temps-Moves p zero = run_pure _
  reconcile_temps-Moves p (suc n) = run_next _ _ (one_call p _) (
      run_next _ _ (one_call p _) (run_next _ _ (cleanup_temp-Moves p) (reconcile_temps-Moves p n)))

  pub reconcile-Moves : (p : Place) → Moves p p (StuckAt p) (reconcile_intent_directory answers)
  unfolding reconcile_intent_directory ◌>>=◌
  reconcile-Moves p = run_next _ _ (one_call p _) (record {
    run = λ w h.
        (run_next _ _ (reconcile_temps-Moves p w.temps)
            (run_next _ _ (one_call p _) (run_next _ _ (one_call p _) (one_call p _)))).run
          w h;
  })

  read_whole :
      (p : Place) (i : Option NativeSealIntent)
      → Runs {E = NativeChunkSealError} (AtPlace p) (AtPlace p) i (StuckAt p) (elim i [
        | none ↦ pure none
        | some v ↦ call answers (io other_kind) >>= (λ _. pure (some v))
      ])
  read_whole p none = run_pure _
  read_whole p (some i) = run_then _ _ (one_call p _) (run_pure _)

  pub read_intent-Runs :
      (p : Place)
      → Runs
          (AtPlace p)
          (AtPlace p)
          (intent_at request final_name file before p)
          (StuckAt p)
          (read_intent answers)
  unfolding read_intent At
  read_intent-Runs p = run_next _ _ (one_call p _) (
      run_then _ _ (run_inspect (λ w. ok w.intent) _ (λ w (s, f, i, c). ap (λ o. ok o) i))
        (read_whole p _))

  -- Whatever the call answers, an error is what is left.
  cleaned :
      (Q : Unit {0} → World → Type 0) (p q : Place) (cleanup : Io IoKind (Unit {0}))
      (e : NativeChunkSealError)
      → Moves p q BrokenOff cleanup
      → (w : World) → StuckAt p w
      → After Q BrokenOff (cleanup_after_intent_failure answers cleanup e w)
  unfolding cleanup_after_intent_failure throw
  cleaned Q p q cleanup e cleans w (h, unreliable) =
      run_attempt BrokenOff Q BrokenOff cleanup _ cleans (λ v h. (q, (h, unreliable))) (λ e v b. b)
        w h

  or_clean_up-Moves :
      (p q r : Place) (m cleanup : Io IoKind (Unit {0}))
      → Moves p q (StuckAt p) m
      → Moves p r BrokenOff cleanup
      → Moves p q BrokenOff (or_clean_up answers m cleanup)
  unfolding pure
  or_clean_up-Moves p q r m cleanup moves cleans = record {
    run = λ w h.
        run_attempt (StuckAt p) (λ a v. (a ≡ tt) × AtPlace q v) BrokenOff m _ moves
          (λ v h. (refl, h))
          (λ e v stuck. cleaned (λ a v. (a ≡ tt) × AtPlace q v) p r cleanup _ cleans v stuck) w h;
  }

  pub any_stuck :
      {E : Type 0} (p q : Place) (m : Io E (Unit {0}))
      → Moves p q (StuckAt p) m
      → Moves p q BrokenOff m
  any_stuck p q m = run_weaken m (broken p)

  cleanup_intent-Moves : Moves intended waiting BrokenOff (cleanup_intent answers)
  unfolding cleanup_intent
  cleanup_intent-Moves = run_next _ _ (any_stuck _ _ _ unnamed) (
      any_stuck _ _ _ (
        run_next _ _ (one_call waiting _) (
          run_next _ _ (one_call waiting _)
            (run_next _ _ (temp_dropped waiting) (one_call waiting _)))))

  pub write_intent-Moves : Moves waiting intended BrokenOff (write_intent answers intent)
  unfolding write_intent
  write_intent-Moves = run_next _ _ (any_stuck _ _ _ (run_via _ _ (temp_added waiting))) (
      run_next _ _ (any_stuck _ _ _ (one_call waiting _)) (
        run_next _ _
          (or_clean_up-Moves _ _ _ _ _ (one_call waiting _)
            (any_stuck _ _ _ (cleanup_temp-Moves waiting)))
          (run_next _ _
            (or_clean_up-Moves _ _ _ _ _ (one_call waiting _)
              (any_stuck _ _ _ (cleanup_temp-Moves waiting)))
            (run_next _ _
              (or_clean_up-Moves _ _ _ _ _ named (any_stuck _ _ _ (cleanup_temp-Moves waiting)))
              (or_clean_up-Moves _ _ _ _ _ (one_call intended _) cleanup_intent-Moves)))))
