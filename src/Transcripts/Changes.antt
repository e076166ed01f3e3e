-- ===== src/Transcripts/Changes.antt =====
-- src-tauri/src/catalog.rs and src-tauri/src/catalog/publication.rs: the changes of the catalog in sequence, with the
-- other statements on jobs and chunks between them.
use life_sub.Common.{
  subst, sym, ℕ, ◌≡◌, refl, inl, Bool, true, false, List, [], ◌∷◌, String, ok, err, any,
}
use life_sub.Jobs.{AsrJob}
use life_sub.Transcripts.{
  TranscriptSegment, ChunkRow, TranscriptCatalog, PublicationResult, commit_transaction,
  append_revision,
}
use life_sub.Transcripts.Publication.{PublicationFailurePoint}
use life_sub.Transcripts.Publishing.{PublishRequest, publish_asr_result}
use life_sub.Transcripts.Manual.{append_manual_revision_from_latest}
use life_sub.Transcripts.Inserted.{Grows, append_body-Grows, manual_body-Grows}
use life_sub.Transcripts.Kept.{publish_body-Grows}

-- A call, with whether the database commits it, the new identity and the clock; `jobs_become` and `chunks_become`
-- stand for whatever the other statements make of those tables.
pub data Change : Type 0 where
  append : Bool → String → ℕ → String → String → List TranscriptSegment → Change
  append_manual : Bool → String → ℕ → String → List TranscriptSegment → Change
  publish_result : (PublicationFailurePoint → Bool) → Bool → PublishRequest → Change
  jobs_become : List AsrJob → Change
  chunks_become : List ChunkRow → Change

module _ (before : String → String → Bool) where
  unfoldable pub apply : Change → TranscriptCatalog → TranscriptCatalog
  apply (append commits new_id now session provider segments) c =
      (append_revision commits new_id now session provider segments c).0
  apply (append_manual commits new_id now session segments) c =
      (append_manual_revision_from_latest before commits new_id now session segments c).0
  apply (publish_result injected commits request) c =
      (publish_asr_result injected commits request c).0
  apply (jobs_become jobs) c = record c { jobs = jobs }
  apply (chunks_become chunks) c = record c { chunks = chunks }

  unfoldable pub apply_all : List Change → TranscriptCatalog → TranscriptCatalog
  apply_all [] c = c
  apply_all (x ∷ xs) c = apply_all xs (apply x c)

unchanged-Grows :
    (c d : TranscriptCatalog) → d.revisions ≡ c.revisions → d.receipts ≡ c.receipts → Grows c d
unchanged-Grows c d same same' = record {
  revisions_grow = inl same;
  receipts_stay = λ p k. subst (λ rs. any p rs ≡ true) (sym same') k;
}

commit_transaction-Grows :
    {A : Type 0} (commits : Bool) (c : TranscriptCatalog)
    (r : PublicationResult (TranscriptCatalog × A))
    → ((d : TranscriptCatalog) (a : A) → r ≡ ok (d, a) → Grows c d)
    → Grows c ((commit_transaction commits c r).0)
unfolding commit_transaction
commit_transaction-Grows commits c (err e) f = unchanged-Grows c c refl refl
commit_transaction-Grows true c (ok (d, a)) f = f d a refl
commit_transaction-Grows false c (ok (d, a)) f = unchanged-Grows c c refl refl

pub apply-Grows :
    (before : String → String → Bool) (x : Change) (c : TranscriptCatalog)
    → Grows c (apply before x c)
unfolding apply append_revision append_manual_revision_from_latest publish_asr_result
apply-Grows before (append commits new_id now session provider segments) c =
    commit_transaction-Grows commits c _ (append_body-Grows new_id now session provider segments c)
apply-Grows before (append_manual commits new_id now session segments) c =
    commit_transaction-Grows commits c _ (manual_body-Grows before new_id now session segments c)
apply-Grows before (publish_result injected commits request) c =
    commit_transaction-Grows commits c _ (publish_body-Grows injected request c)
apply-Grows before (jobs_become jobs) c = unchanged-Grows c _ refl refl
apply-Grows before (chunks_become chunks) c = unchanged-Grows c _ refl refl
