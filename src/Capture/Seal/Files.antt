-- ===== src/Capture/Seal/Files.antt =====
-- src-tauri/src/capture/seal.rs: the calls of the operating system and of the catalog, as far as they touch
-- the files of one chunk. Each call is answered by whether it succeeds, and one that fails changes nothing; a
-- process that is stopped at a call is one whose calls fail from there on. No other process changes the files,
-- and what a call has done stays done.
use life_sub.Common.{
  ℕ, suc, ◌-◌, Bool, true, false, Option, none, some, String, Result, ok, err, if◌then◌else◌,
}
use life_sub.Capture.Seal.{
  AudioChunk, CaptureChunkTiming, NativeSealIntent, RegularFile, IoKind, not_found, already_exists,
  other_kind, NativeChunkSealError, catalog_error,
}
use life_sub.Capture.Seal.Insert.{
  CaptureCatalog, chunk_row, capture_chunk_timing, NativeCaptureInsertError, insert_failed,
  NativeCaptureInsertOutcome, insert_native_capture_chunk, InsertResult,
}

-- The files under the staged and the final name, the intent of the chunk, the number of temporary intents that
-- were left behind, the catalog, and the number of calls made.
pub record World : Type 0 where
  pub staged : Option RegularFile
  pub published : Option RegularFile
  pub intent : Option NativeSealIntent
  pub temps : ℕ
  pub catalog : CaptureCatalog
  pub calls : ℕ

abbrev pub Io : Type 0 → Type 0 → Type 0
Io E A = World → World × Result E A

unfoldable pub pure : {E A : Type 0} → A → Io E A
pure a w = (w, ok a)

unfoldable pub throw : {E A : Type 0} → E → Io E A
throw e w = (w, err e)

abbrev pub continue : {E A B : Type 0} → World × Result E A → (A → Io E B) → World × Result E B
continue (w, ok a) f = f a w
continue (w, err e) f = (w, err e)

infixl 5 ◌>>=◌ ◌>>◌
unfoldable pub ◌>>=◌ : {E A B : Type 0} → Io E A → (A → Io E B) → Io E B
◌>>=◌ m f w = continue (m w) f

unfoldable pub ◌>>◌ : {E B : Type 0} → Io E (Unit {0}) → Io E B → Io E B
m >> k = m >>= λ _. k

abbrev pub with_error : {E F A : Type 0} → (E → F) → World × Result E A → World × Result F A
with_error f (w, ok a) = (w, ok a)
with_error f (w, err e) = (w, err (f e))

-- `?` with a conversion of the error.
unfoldable pub via : {E F A : Type 0} → (E → F) → Io E A → Io F A
via f m w = with_error f (m w)

-- The result of a call as a value.
unfoldable pub attempt : {E F A : Type 0} → Io E A → Io F (Result E A)
attempt m w = let (v, r) = m w in (v, ok r)

abbrev pub of_result : {E A : Type 0} → Result E A → Io E A
of_result r w = (w, r)

unfoldable pub guard : {E : Type 0} → Bool → E → Io E (Unit {0})
guard true e = pure tt
guard false e = throw e

abbrev pub found : {A : Type 0} → Option A → Result IoKind A
found none = err not_found
found (some a) = ok a

-- What the calls change: `rename_noreplace` from the staged to the final name and back, and the intents.
abbrev pub publish_file : World → Result IoKind World
publish_file w = elim w.published [
  | some f ↦ err already_exists
  | none ↦ elim w.staged [
    | none ↦ err not_found
    | some f ↦ ok (record w { staged = none; published = some f })
  ]
]

abbrev pub take_file_back : World → Result IoKind World
take_file_back w = elim w.staged [
  | some f ↦ err already_exists
  | none ↦ elim w.published [
    | none ↦ err not_found
    | some f ↦ ok (record w { staged = some f; published = none })
  ]
]

abbrev pub drop_intent : World → Result IoKind World
drop_intent w = elim w.intent [ none ↦ err not_found | some i ↦ ok (record w { intent = none }) ]

abbrev pub add_temp : World → Result IoKind World
add_temp w = ok (record w { temps = suc w.temps })

abbrev pub drop_temp : World → Result IoKind World
drop_temp w = ok (record w { temps = w.temps - 1 })

abbrev pub name_intent : NativeSealIntent → World → Result IoKind World
name_intent i w = elim w.intent [
  | some j ↦ err already_exists
  | none ↦ ok (record w { intent = some i; temps = w.temps - 1 })
]

abbrev pub unname_intent : World → Result IoKind World
unname_intent w = elim w.intent [
  | none ↦ err not_found
  | some i ↦ ok (record w { intent = none; temps = suc w.temps })
]

-- The world after a change, or as it was.
abbrev pub settle : World → Result IoKind World → World × Result IoKind (Unit {0})
settle w (ok v) = (v, ok tt)
settle w (err e) = (w, err e)

-- The catalog after an insertion, or as it was.
abbrev pub settle_row :
    World → InsertResult → World × Result NativeCaptureInsertError NativeCaptureInsertOutcome
settle_row w (err e) = (w, err e)
settle_row w (ok (catalog, outcome)) = (record w { catalog = catalog }, ok outcome)

module _ (answers : ℕ → Bool) where
  unfoldable pub call : {E : Type 0} → E → Io E (Unit {0})
  call e w = (record w { calls = suc w.calls }, if answers w.calls then ok tt else err e)

  -- A call that fails or changes the files.
  unfoldable pub change : (World → Result IoKind World) → Io IoKind (Unit {0})
  unfolding call ◌>>◌ ◌>>=◌
  change f = do call other_kind; λ w. settle w (f w)

  abbrev pub sync : Io IoKind (Unit {0})
  sync = call other_kind

  unfoldable pub open_staged : Io IoKind RegularFile
  unfolding call
  open_staged = do call other_kind; λ w. (w, found w.staged)

  unfoldable pub open_published : Io IoKind RegularFile
  unfolding call
  open_published = do call other_kind; λ w. (w, found w.published)

  abbrev pub rename_to_final : Io IoKind (Unit {0})
  rename_to_final = change publish_file

  abbrev pub rename_to_staging : Io IoKind (Unit {0})
  rename_to_staging = change take_file_back

  abbrev pub remove_intent : Io IoKind (Unit {0})
  remove_intent = change drop_intent

  abbrev pub create_temp : Io IoKind (Unit {0})
  create_temp = change add_temp

  abbrev pub unlink_temp : Io IoKind (Unit {0})
  unlink_temp = change drop_temp

  abbrev pub rename_temp_to_intent : NativeSealIntent → Io IoKind (Unit {0})
  rename_temp_to_intent i = change (name_intent i)

  abbrev pub rename_intent_to_temp : Io IoKind (Unit {0})
  rename_intent_to_temp = change unname_intent

  unfoldable pub load_chunk : String → Io NativeChunkSealError (Option AudioChunk)
  unfolding call chunk_row
  load_chunk id = do call catalog_error; λ w. (w, ok (chunk_row id w.catalog.chunks))

  unfoldable pub load_timing : String → Io NativeChunkSealError (Option CaptureChunkTiming)
  unfolding call capture_chunk_timing
  load_timing id = do call catalog_error; λ w. (w, ok (capture_chunk_timing id w.catalog.timings))

  unfoldable pub insert_chunk :
      AudioChunk → CaptureChunkTiming → Io NativeCaptureInsertError NativeCaptureInsertOutcome
  unfolding call
  insert_chunk chunk timing = do
    call insert_failed
    λ w. settle_row w (insert_native_capture_chunk chunk timing w.catalog)
