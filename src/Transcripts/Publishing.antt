-- ===== src/Transcripts/Publishing.antt =====
-- src-tauri/src/catalog/publication.rs: publish_asr_result, its statements in their order.
use life_sub.Common.{
  ℕ, suc, Bool, true, false, not, Option, none, some, List, [], ◌∷◌, String, ok, ◌>>=◌, ◌>>◌, guard,
  all, is_empty, str_eq,
}
use life_sub.Jobs.Coordinator.{ClaimToken}
use life_sub.Transcripts.{
  TranscriptSegment, TranscriptRevision, ReceiptRow, TranscriptCatalog, RevisionRow,
  publication_failed, invalid_result, PublicationResult, max_number, insert_revision,
  insert_segment, commit_transaction,
}
use life_sub.Transcripts.Publication.{
  PublicationFailurePoint, at_receipt, at_revision, at_receipt_link, at_segment, at_search,
  at_succeed, TranscriptSegmentPublication, PublicationContext, publication_context,
  is_valid_segment, within_chunk, validate_receipt, mark_job_succeeded, insert_receipt,
  link_receipt, published_segment,
}

-- What a publication is handed: the token, the receipt, the segments and the clock, and the new identities.
pub record PublishRequest : Type 0 where
  pub token : ClaimToken
  pub receipt : ReceiptRow
  pub segments : List TranscriptSegmentPublication
  pub now : ℕ
  pub new_receipt_id : String
  pub new_revision_id : String

abbrev pub with_first :
    TranscriptSegment
    → TranscriptCatalog × List TranscriptSegment
    → TranscriptCatalog × List TranscriptSegment
with_first s rest = (rest.0, s ∷ rest.1)

module _ (injected : PublicationFailurePoint → Bool) where
  unfoldable pub fail_if_requested : PublicationFailurePoint → PublicationResult (Unit {0})
  fail_if_requested point = guard (not (injected point)) publication_failed

  -- The loop over the segments.
  unfoldable pub publish_segments :
      String
      → PublicationContext
      → List TranscriptSegmentPublication
      → TranscriptCatalog
      → PublicationResult (TranscriptCatalog × List TranscriptSegment)
  publish_segments revision context [] c = ok (c, [])
  publish_segments revision context (s ∷ ss) c = do
    published ← published_segment context s
    inserted ← insert_segment revision published c
    fail_if_requested at_segment
    fail_if_requested at_search
    rest ← publish_segments revision context ss inserted
    ok (with_first published rest)

  unfoldable pub revision_row : PublishRequest → PublicationContext → ℕ → RevisionRow
  revision_row request context number = record {
    id = request.new_revision_id;
    session_id = context.session_id;
    number = number;
    provider = context.provider;
    created_at = request.now;
    provenance_status = "verified_local_asr";
  }

  unfoldable pub succeed : PublishRequest → TranscriptCatalog → PublicationResult TranscriptCatalog
  succeed request c = do
    done ← mark_job_succeeded request.token request.now c
    fail_if_requested at_succeed
    ok done

  -- The revision, its receipt and its segments.
  unfoldable pub publish_revision :
      PublishRequest
      → PublicationContext
      → TranscriptCatalog
      → PublicationResult (TranscriptCatalog × TranscriptRevision)
  publish_revision request context c = do
    let number = suc (max_number context.session_id c.revisions)
    revised ← insert_revision (revision_row request context number) c
    fail_if_requested at_revision
    linked ← link_receipt request.new_revision_id request.new_receipt_id revised
    fail_if_requested at_receipt_link
    published ← publish_segments request.new_revision_id context request.segments linked
    done ← succeed request published.0
    ok (
      done,
      record {
        id = request.new_revision_id;
        session_id = context.session_id;
        number = number;
        provider = context.provider;
        created_at = request.now;
        segments = published.1;
      },
    )

  -- What follows the receipt: if there is no segment, there is no revision.
  unfoldable pub publish_rest :
      Bool
      → PublishRequest
      → PublicationContext
      → TranscriptCatalog
      → PublicationResult (TranscriptCatalog × Option TranscriptRevision)
  publish_rest true request context c = succeed request c >>= λ done. ok (done, none)
  publish_rest false request context c =
      publish_revision request context c >>= λ done. ok (done.0, some done.1)

  unfoldable pub publish_body :
      PublishRequest
      → TranscriptCatalog
      → PublicationResult (TranscriptCatalog × Option TranscriptRevision)
  publish_body request c = do
    guard (all is_valid_segment request.segments) (invalid_result "invalid segment")
    guard (str_eq request.receipt.job_id request.token.job_id)
        (invalid_result "receipt job mismatch")
    context ← publication_context request.token request.now c
    guard (validate_receipt request.receipt context) (invalid_result "receipt identity mismatch")
    guard (all (within_chunk context.chunk_duration_ms) request.segments)
        (invalid_result "segment exceeds chunk")
    received ← insert_receipt request.new_receipt_id request.receipt c
    fail_if_requested at_receipt
    publish_rest (is_empty request.segments) request context received

  unfoldable pub publish_asr_result :
      Bool
      → PublishRequest
      → TranscriptCatalog
      → TranscriptCatalog × PublicationResult (Option TranscriptRevision)
  publish_asr_result commits request c = commit_transaction commits c (publish_body request c)
