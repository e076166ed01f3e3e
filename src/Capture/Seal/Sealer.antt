-- ===== src/Capture/Seal/Sealer.antt =====
-- src-tauri/src/capture/seal.rs: NativeChunkSealer. The hexadecimal text of SHA-256 is an argument.
use life_sub.Common.{
  ℕ, Bool, true, false, not, ◌&&◌, ◌||◌, Option, none, some, List, String, ok, err, ◌==◌,
  if◌then◌else◌, str_eq, length, is_some_and,
}
use life_sub.Capture.Seal.{
  imported, audio_source_eq, AudioChunk, NativeSealIntent, NativeChunkSealRequest, RegularFile,
  not_found, already_exists, other_kind, io, conflict, integrity_mismatch, chunk_eq, timing_eq,
  intent_eq, validated_names, chunk_of, intent_of,
}
use life_sub.Capture.Seal.Files.{
  pure, throw, ◌>>=◌, ◌>>◌, via, attempt, of_result, guard, call, sync, open_staged, open_published,
  rename_to_final, load_chunk, load_timing, insert_chunk,
}
use life_sub.Capture.Seal.Intents.{
  Sealing, is_intended, insert_error, as_conflict, rename_error, write_intent, read_intent,
  reconcile_intent_directory, restore_or_recovery, forget_intent, intend, check_staged, record_row,
}

module _ (sha256 : List ℕ → String) (answers : ℕ → Bool) where
  unfoldable pub verify_file : RegularFile → AudioChunk → Sealing (Unit {0})
  unfolding call
  verify_file file chunk = do
    call answers (io other_kind)
    guard (length file.bytes == chunk.byte_length) integrity_mismatch
    call answers (io other_kind)
    guard (str_eq (sha256 file.bytes) chunk.sha256) integrity_mismatch

  -- The chunk has its rows in the catalog.
  unfoldable pub confirm :
      NativeChunkSealRequest
      → AudioChunk
      → AudioChunk
      → Option NativeSealIntent
      → Sealing AudioChunk
  unfolding load_timing call open_published verify_file
  confirm request chunk existing existing_intent = do
    timing ← load_timing answers chunk.id
    guard (chunk_eq existing chunk && is_some_and (λ t. timing_eq t request.timing) timing) conflict
    call answers (io other_kind)
    file ← via io (open_published answers)
    verify_file file chunk
    elim existing_intent [
      | none ↦ pure tt
      | some i ↦
          if intent_eq i (intent_of request chunk) then forget_intent answers else throw conflict
    ]
    pure chunk

  -- A file stands under the final name, and the chunk has no row.
  unfoldable pub complete_published :
      NativeChunkSealRequest
      → AudioChunk
      → RegularFile
      → Option NativeSealIntent
      → Sealing AudioChunk
  unfolding call insert_chunk
  complete_published request chunk file existing_intent = do
    guard (is_intended (intent_of request chunk) existing_intent) conflict
    call answers (io other_kind)
    via as_conflict (verify_file file chunk)
    via io (sync answers)
    _ ← via insert_error (insert_chunk answers chunk request.timing)
    forget_intent answers
    pure chunk

  -- The published file is the staged one, its bytes are the expected, and the directory is synchronised.
  unfoldable pub validate_published : RegularFile → AudioChunk → Sealing (Unit {0})
  unfolding open_published call verify_file
  validate_published staged chunk = do
    published ← via io (open_published answers)
    call answers (io other_kind)
    guard (published.identity == staged.identity) conflict
    verify_file published chunk
    via io (sync answers)

  unfoldable pub move_to_final : RegularFile → AudioChunk → Sealing (Unit {0})
  unfolding validate_published restore_or_recovery
  move_to_final staged chunk = do
    renamed ← attempt (rename_to_final answers)
    elim renamed [ ok _ ↦ pure tt | err e ↦ forget_intent answers >> throw (rename_error e) ]
    validated ← attempt (validate_published staged chunk)
    elim validated [ ok _ ↦ pure tt | err e ↦ restore_or_recovery answers e ]

  unfoldable pub publish :
      NativeChunkSealRequest → AudioChunk → Option NativeSealIntent → Sealing AudioChunk
  unfolding open_staged call verify_file write_intent check_staged move_to_final record_row
  publish request chunk existing_intent = do
    staged ← via io (open_staged answers)
    call answers (io other_kind)
    verify_file staged chunk
    intend answers (intent_of request chunk) existing_intent
    via io (sync answers)
    check_staged answers staged
    move_to_final staged chunk
    record_row answers request chunk

  -- The chunk has no row, and a timing without it is a conflict.
  unfoldable pub seal_new :
      NativeChunkSealRequest → AudioChunk → Option NativeSealIntent → Sealing AudioChunk
  unfolding load_timing call open_published publish complete_published
  seal_new request chunk existing_intent = do
    timing ← load_timing answers chunk.id
    guard (elim timing [ none ↦ true | some _ ↦ false ]) conflict
    call answers (io other_kind)
    published ← attempt (open_published answers)
    elim published [
      | ok file ↦ complete_published request chunk file existing_intent
      | err not_found ↦ publish request chunk existing_intent
      | err already_exists ↦ throw (io already_exists)
      | err other_kind ↦ throw (io other_kind)
    ]

  unfoldable pub seal_chunk : NativeChunkSealRequest → AudioChunk → Sealing AudioChunk
  unfolding call reconcile_intent_directory read_intent load_chunk confirm seal_new
  seal_chunk request chunk = do
    call answers (io other_kind)
    via io (reconcile_intent_directory answers)
    existing_intent ← read_intent answers
    row ← load_chunk answers chunk.id
    elim row [
      | some existing ↦ confirm request chunk existing existing_intent
      | none ↦ seal_new request chunk existing_intent
    ]

  unfoldable pub seal : NativeChunkSealRequest → Sealing AudioChunk
  unfolding validated_names seal_chunk
  seal request = do
    final_name ← of_result (validated_names request.relative_staging_path request.chunk_id)
    guard
        (not (
          audio_source_eq request.source imported
          || not (str_eq request.timing.chunk_id request.chunk_id)))
        conflict
    seal_chunk request (chunk_of request final_name)
