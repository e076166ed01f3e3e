-- ===== src/Transcripts/Kept.antt =====
-- src-tauri/src/catalog/publication.rs: what a publication leaves of the other tables.
use life_sub.Common.{
  suc, ◌≡◌, refl, sym, ap, ◌∙◌, subst, ◌⊎◌, inl, Bool, true, false, ◌||◌, Option, List, [], ◌∷◌,
  ◌++◌, String, ok, ◌>>◌, >>=-eq-ok, >>-eq-ok, arith, any, all, is_empty, str_eq, guard,
}
use life_sub.Transcripts.{
  TranscriptRevision, RevisionRow, PublicationError, StoredReceipt, TranscriptCatalog,
  PublicationResult, invalid_result, max_number, insert_revision,
}
use life_sub.Transcripts.Publication.{
  PublicationFailurePoint, at_receipt, at_revision, at_receipt_link, PublicationContext,
  mark_job_succeeded, insert_receipt, link_receipt, is_valid_segment, within_chunk,
  publication_context, validate_receipt,
}
use life_sub.Transcripts.Publishing.{
  PublishRequest, fail_if_requested, publish_segments, revision_row, succeed, publish_revision,
  publish_rest, publish_body,
}
use life_sub.Transcripts.Inserted.{
  Grows, Leaves, Leaves-trans, publish_segments-Leaves, Grows-by, ok_first,
}

pub any-append :
    {A : Type 0} (p : A → Bool) (xs ys : List A) → any p (xs ++ ys) ≡ (any p xs || any p ys)
any-append p [] ys = refl
any-append p (x ∷ xs) ys = ground (arith, any-append p xs ys)

abbrev pub stored : PublishRequest → StoredReceipt
stored request = record { receipt_id = request.new_receipt_id; receipt = request.receipt }

pub insert_receipt-ok :
    (request : PublishRequest) (c d : TranscriptCatalog)
    → insert_receipt request.new_receipt_id request.receipt c ≡ ok d
    → (d.revisions ≡ c.revisions)
      × (d.receipts ≡ c.receipts ++ stored request ∷ [])
      × (any (λ r. str_eq r.receipt.job_id request.receipt.job_id) c.receipts ≡ false)
unfolding insert_receipt
insert_receipt-ok request c d h =
    (ground arith, ground arith, none_before c.receipts (ground arith))
  where
    none_before :
        (rs : List StoredReceipt)
        → any
            (λ r.
              str_eq r.receipt_id request.new_receipt_id
              || str_eq r.receipt.job_id request.receipt.job_id)
            rs
          ≡ false
        → any (λ r. str_eq r.receipt.job_id request.receipt.job_id) rs ≡ false
    none_before [] k = refl
    none_before (r ∷ rs) k = ground (arith, none_before rs)

link_receipt-Leaves :
    (revision receipt : String) (c d : TranscriptCatalog)
    → link_receipt revision receipt c ≡ ok d
    → Leaves c d
unfolding link_receipt
link_receipt-Leaves revision receipt c d h = record {
  same_revisions = ground arith;
  same_receipts = ground arith;
}

-- What a sequence that succeeds says of its first part.
pub guarded :
    {B : Type 0} (test : Bool) (e : PublicationError) (second : PublicationResult B) {out : B}
    → (guard test e >> second) ≡ ok out
    → test ≡ true
guarded test e second h = ground arith

module _ (injected : PublicationFailurePoint → Bool) (request : PublishRequest) where
  succeed-Leaves : (c d : TranscriptCatalog) → succeed injected request c ≡ ok d → Leaves c d
  unfolding succeed mark_job_succeeded fail_if_requested
  succeed-Leaves c d h = record { same_revisions = ground arith; same_receipts = ground arith }

  publish_revision-Grows :
      (context : PublicationContext) (c d : TranscriptCatalog) (out : TranscriptRevision)
      → publish_revision injected request context c ≡ ok (d, out)
      → Grows c d
  unfolding publish_revision revision_row
  publish_revision-Grows context c d out h =
      let row =
        revision_row injected request context (suc (max_number context.session_id c.revisions)) in
      let (e, is_e, h1) = >>=-eq-ok (insert_revision row c) _ h in
      let h2 = >>-eq-ok (fail_if_requested injected at_revision) _ h1 in
      let (f, is_f, h3) =
        >>=-eq-ok (link_receipt request.new_revision_id request.new_receipt_id e) _ h2 in
      let h4 = >>-eq-ok (fail_if_requested injected at_receipt_link) _ h3 in
      let (g, is_g, h5) =
        >>=-eq-ok (publish_segments injected request.new_revision_id context request.segments f) _
          h4 in
      let (k, is_k, h6) = >>=-eq-ok (succeed injected request g.0) _ h5 in
      Grows-by row c e k d is_e
        (Leaves-trans (link_receipt-Leaves request.new_revision_id request.new_receipt_id e f is_f)
          (Leaves-trans
            (publish_segments-Leaves injected request.new_revision_id context request.segments f g.0
              g.1 is_g)
            (succeed-Leaves g.0 k is_k)))
        (ok_first h6) refl

  same-Grows : (c d : TranscriptCatalog) → Leaves c d → Grows c d
  same-Grows c d leaves = record {
    revisions_grow = inl leaves.same_revisions;
    receipts_stay = λ p k. subst (λ rs. any p rs ≡ true) (sym leaves.same_receipts) k;
  }

  publish_rest-Grows :
      (is_bare : Bool) (context : PublicationContext) (c d : TranscriptCatalog)
      (out : Option TranscriptRevision)
      → publish_rest injected is_bare request context c ≡ ok (d, out)
      → Grows c d
  unfolding publish_rest
  publish_rest-Grows true context c d out h =
      let (k, is_k, h1) = >>=-eq-ok (succeed injected request c) _ h in
      subst (Grows c) (ok_first h1) (same-Grows c k (succeed-Leaves c k is_k))
  publish_rest-Grows false context c d out h =
      let (k, is_k, h1) = >>=-eq-ok (publish_revision injected request context c) _ h in
      subst (Grows c) (ok_first h1) (publish_revision-Grows context c k.0 k.1 is_k)

  -- A publication that succeeds was the first for its job, and its receipt is there.
  pub publish_body-parts :
      (c d : TranscriptCatalog) (out : Option TranscriptRevision)
      → publish_body injected request c ≡ ok (d, out)
      → (e : TranscriptCatalog) × (str_eq request.receipt.job_id request.token.job_id ≡ true)
        × (insert_receipt request.new_receipt_id request.receipt c ≡ ok e)
        × Grows e d
  unfolding publish_body
  publish_body-parts c d out h =
      let h1 =
        >>-eq-ok (guard (all is_valid_segment request.segments) (invalid_result "invalid segment"))
          _ h in
      let same = str_eq request.receipt.job_id request.token.job_id in
      let mismatch = guard same (invalid_result "receipt job mismatch") in
      let h2 = >>-eq-ok mismatch _ h1 in
      let (context, _, h3) = >>=-eq-ok (publication_context request.token request.now c) _ h2 in
      let h4 =
        >>-eq-ok
          (guard (validate_receipt request.receipt context)
            (invalid_result "receipt identity mismatch"))
          _ h3 in
      let h5 =
        >>-eq-ok
          (guard (all (within_chunk context.chunk_duration_ms) request.segments)
            (invalid_result "segment exceeds chunk"))
          _ h4 in
      let (e, is_e, h6) =
        >>=-eq-ok (insert_receipt request.new_receipt_id request.receipt c) _ h5 in
      let h7 = >>-eq-ok (fail_if_requested injected at_receipt) _ h6 in
      (
        e,
        guarded same (invalid_result "receipt job mismatch") _ h1,
        is_e,
        publish_rest-Grows (is_empty request.segments) context e d out h7,
      )

  pub publish_body-Grows :
      (c d : TranscriptCatalog) (out : Option TranscriptRevision)
      → publish_body injected request c ≡ ok (d, out)
      → Grows c d
  publish_body-Grows c d out h =
      let (e, _, is_e, grows) = publish_body-parts c d out h in
      let (same, more, _) = insert_receipt-ok request c e is_e in
      record {
        revisions_grow =
            subst
              (λ rs.
                (d.revisions ≡ rs)
                ⊎ ((new : RevisionRow) × (d.revisions ≡ rs ++ new ∷ [])
                    × (new.number ≡ suc (max_number new.session_id rs))))
              same grows.revisions_grow;
        receipts_stay = λ p k. grows.receipts_stay p (
            subst (λ rs. any p rs ≡ true) (sym more)
              (any-append p c.receipts (stored request ∷ [])
                ∙ ap (λ b. b || any p (stored request ∷ [])) k));
      }
