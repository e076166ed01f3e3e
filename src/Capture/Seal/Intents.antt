-- ===== src/Capture/Seal/Intents.antt =====
-- src-tauri/src/capture/seal.rs: the files of intents, and the steps of a seal that undo or complete it.
use life_sub.Common.{
  ℕ, zero, suc, Bool, Option, none, some, ok, err, ◌==◌, if◌then◌else◌, is_some_and,
}
use life_sub.Capture.Seal.{
  AudioChunk, NativeSealIntent, NativeChunkSealRequest, RegularFile, IoKind, not_found,
  already_exists, other_kind, NativeChunkSealError, io, catalog_error, conflict, integrity_mismatch,
  recovery_required, intent_eq, intent_of,
}
use life_sub.Capture.Seal.Insert.{NativeCaptureInsertError, insert_conflict, insert_failed}
use life_sub.Capture.Seal.Files.{
  Io, pure, throw, ◌>>=◌, ◌>>◌, via, attempt, guard, call, sync, open_staged, rename_to_staging,
  remove_intent, create_temp, unlink_temp, rename_temp_to_intent, rename_intent_to_temp,
  insert_chunk,
}

abbrev pub Sealing : Type 0 → Type 0
Sealing A = Io NativeChunkSealError A

abbrev pub is_intended : NativeSealIntent → Option NativeSealIntent → Bool
is_intended intent = is_some_and (λ i. intent_eq i intent)

abbrev pub insert_error : NativeCaptureInsertError → NativeChunkSealError
insert_error insert_conflict = conflict
insert_error insert_failed = catalog_error

-- A verification error that means that another file stands under the final name.
abbrev pub as_conflict : NativeChunkSealError → NativeChunkSealError
as_conflict integrity_mismatch = conflict
as_conflict e = e

-- A staged entry that is gone is a conflict, as is a final entry that is there.
abbrev pub staged_error : IoKind → NativeChunkSealError
staged_error not_found = conflict
staged_error e = io e

abbrev pub rename_error : IoKind → NativeChunkSealError
rename_error already_exists = conflict
rename_error e = io e

module _ (answers : ℕ → Bool) where
  -- `cleanup_intent_file`, of a temporary file and of the intent.
  unfoldable pub cleanup_temp : Io IoKind (Unit {0})
  unfolding call
  cleanup_temp = do
    call answers other_kind
    call answers other_kind
    call answers other_kind
    unlink_temp answers
    sync answers

  unfoldable pub cleanup_intent : Io IoKind (Unit {0})
  unfolding call
  cleanup_intent = do
    rename_intent_to_temp answers
    call answers other_kind
    call answers other_kind
    unlink_temp answers
    sync answers

  unfoldable pub cleanup_after_intent_failure :
      Io IoKind (Unit {0}) → NativeChunkSealError → Sealing (Unit {0})
  cleanup_after_intent_failure cleanup original = do
    r ← attempt cleanup
    throw (elim r [ ok _ ↦ original | err e ↦ recovery_required e ])

  abbrev pub or_clean_up : Io IoKind (Unit {0}) → Io IoKind (Unit {0}) → Sealing (Unit {0})
  or_clean_up m cleanup = do
    r ← attempt m
    elim r [ ok _ ↦ pure tt | err e ↦ cleanup_after_intent_failure cleanup (io e) ]

  unfoldable pub write_intent : NativeSealIntent → Sealing (Unit {0})
  unfolding call
  write_intent intent = do
    via io (create_temp answers)
    call answers (io other_kind)
    or_clean_up (call answers other_kind) cleanup_temp
    or_clean_up (sync answers) cleanup_temp
    or_clean_up (rename_temp_to_intent answers intent) cleanup_temp
    or_clean_up (sync answers) cleanup_intent

  unfoldable pub read_intent : Sealing (Option NativeSealIntent)
  unfolding call
  read_intent = do
    call answers (io other_kind)
    i ← (λ w. (w, ok w.intent))
    elim i [
      | none ↦ pure none
      | some intent ↦ call answers (io other_kind) >>= (λ _. pure (some intent))
    ]

  unfoldable pub reconcile_temps : ℕ → Io IoKind (Unit {0})
  unfolding call
  reconcile_temps zero = pure tt
  reconcile_temps (suc n) = do
    call answers other_kind
    call answers other_kind
    cleanup_temp
    reconcile_temps n

  -- The entries are read, each is opened and examined, and the temporary files are removed.
  unfoldable pub reconcile_intent_directory : Io IoKind (Unit {0})
  unfolding call
  reconcile_intent_directory = do
    call answers other_kind
    n ← (λ w. (w, ok w.temps))
    reconcile_temps n
    call answers other_kind
    call answers other_kind
    sync answers

  unfoldable pub restore_staging : Io IoKind (Unit {0})
  restore_staging = do rename_to_staging answers; sync answers; sync answers

  unfoldable pub restore_or_recovery : {A : Type 0} → NativeChunkSealError → Sealing A
  unfolding restore_staging
  restore_or_recovery original = do
    r ← attempt restore_staging
    elim r [
      | err e ↦ throw (recovery_required e)
      | ok _ ↦ do
        s ← attempt (do remove_intent answers; sync answers)
        throw (elim s [ ok _ ↦ original | err e ↦ recovery_required e ])
    ]

  -- The intent is removed and its directory synchronised.
  abbrev pub forget_intent : Sealing (Unit {0})
  forget_intent = do via io (remove_intent answers); via io (sync answers)

  -- The intent is written, unless it stands already.
  abbrev pub intend : NativeSealIntent → Option NativeSealIntent → Sealing (Unit {0})
  intend intent none = write_intent intent
  intend intent (some i) = guard (intent_eq i intent) conflict

  -- The entry that is staged is still the file that was opened.
  unfoldable pub check_staged : RegularFile → Sealing (Unit {0})
  unfolding open_staged call
  check_staged staged = do
    current ← attempt (open_staged answers)
    elim current [
      | ok file ↦ do call answers (io other_kind); guard (file.identity == staged.identity) conflict
      | err e ↦ throw (staged_error e)
    ]

  unfoldable pub record_row : NativeChunkSealRequest → AudioChunk → Sealing AudioChunk
  unfolding insert_chunk restore_or_recovery
  record_row request chunk = do
    row ← attempt (insert_chunk answers chunk request.timing)
    elim row [ ok _ ↦ pure tt | err e ↦ restore_or_recovery (insert_error e) ]
    forget_intent
    pure chunk

  -- An intent that is left behind is forgotten, if it is the chunk's.
  abbrev pub forgotten_if :
      NativeChunkSealRequest → AudioChunk → Option NativeSealIntent → Sealing (Unit {0})
  forgotten_if request chunk none = pure tt
  forgotten_if request chunk (some i) =
      if intent_eq i (intent_of request chunk) then forget_intent else throw conflict
