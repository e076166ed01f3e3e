-- ===== src/Transcripts/Published.antt =====
-- src-tauri/src/catalog/publication.rs: the result of a job is published once.
use life_sub.Common.{
  ◌≡◌, refl, sym, ap, subst, inl, inr, Bool, true, false, Option, List, [], ◌∷◌, String, ok, err,
  arith, is_ok, any, str_eq, str_eq_iff, Result-cases,
}
use life_sub.Transcripts.{
  TranscriptRevision, StoredReceipt, TranscriptCatalog, PublicationResult, commit_transaction,
}
use life_sub.Transcripts.Publication.{PublicationFailurePoint}
use life_sub.Transcripts.Publishing.{PublishRequest, publish_body, publish_asr_result}
use life_sub.Transcripts.Kept.{stored, any-append, insert_receipt-ok, publish_body-parts}
use life_sub.Transcripts.Inserted.{committed}
use life_sub.Transcripts.Changes.{Change, apply, apply_all, apply-Grows}

abbrev is_of_job : String → StoredReceipt → Bool
is_of_job job r = str_eq r.receipt.job_id job

refused :
    {A : Type 0} (commits : Bool) (c : TranscriptCatalog)
    (r : PublicationResult (TranscriptCatalog × A))
    → is_ok r ≡ false
    → (commit_transaction commits c r).0 ≡ c × is_ok ((commit_transaction commits c r).1) ≡ false
unfolding commit_transaction
refused commits c (err e) h = (refl, refl)
refused commits c (ok a) h = cc

has_receipt :
    (injected : PublicationFailurePoint → Bool) (request : PublishRequest) (c d : TranscriptCatalog)
    (out : Option TranscriptRevision)
    → publish_body injected request c ≡ ok (d, out)
    → any (is_of_job request.token.job_id) d.receipts ≡ true
has_receipt injected request c d out h =
    let (e, same, is_e, grows) = publish_body-parts injected request c d out h in
    let (_, more, _) = insert_receipt-ok request c e is_e in
    let there = any-append (is_of_job request.token.job_id) c.receipts (stored request ∷ []) in
    grows.receipts_stay (is_of_job request.token.job_id) (
      subst (λ rs. any (is_of_job request.token.job_id) rs ≡ true) (sym more)
        (ground (arith, there, same)))

no_receipt :
    (injected : PublicationFailurePoint → Bool) (request : PublishRequest) (c d : TranscriptCatalog)
    (out : Option TranscriptRevision)
    → publish_body injected request c ≡ ok (d, out)
    → any (is_of_job request.token.job_id) c.receipts ≡ false
no_receipt injected request c d out h =
    let (e, same, is_e, _) = publish_body-parts injected request c d out h in
    let (_, _, none_before) = insert_receipt-ok request c e is_e in
    subst (λ job. any (is_of_job job) c.receipts ≡ false)
      ((str_eq_iff request.receipt.job_id request.token.job_id).0 same) none_before

apply_all-receipts :
    (before : String → String → Bool) (xs : List Change) (p : StoredReceipt → Bool)
    (c : TranscriptCatalog)
    → any p c.receipts ≡ true
    → any p ((apply_all before xs c).receipts) ≡ true
unfolding apply_all
apply_all-receipts before [] p c h = h
apply_all-receipts before (x ∷ xs) p c h =
    apply_all-receipts before xs p (apply before x c) ((apply-Grows before x c).receipts_stay p h)

-- Once the result of a job is published, whatever is appended, edited and published after it, and whatever becomes
-- of the jobs and the chunks, another publication for the job is refused and changes nothing.
pub published_once :
    (before : String → String → Bool) (injected injected' : PublicationFailurePoint → Bool)
    (commits commits' : Bool) (request request' : PublishRequest) (c d : TranscriptCatalog)
    (out : Option TranscriptRevision) (changes : List Change)
    → publish_asr_result injected commits request c ≡ (d, ok out)
    → request'.token.job_id ≡ request.token.job_id
    → let e = apply_all before changes d in
      ((publish_asr_result injected' commits' request' e).0 ≡ e)
      × (is_ok ((publish_asr_result injected' commits' request' e).1) ≡ false)
unfolding publish_asr_result
published_once before injected injected' commits commits' request request' c d out changes published
      same_job =
    let e = apply_all before changes d in
    let body = committed commits c d out (publish_body injected request c) published in
    let there =
      apply_all-receipts before changes (is_of_job request.token.job_id) d
        (has_receipt injected request c d out body) in
    refused commits' e (publish_body injected' request' e)
      (elim (Result-cases (publish_body injected' request' e)) [
        | inl (again, is_again) ↦
            let missing =
              subst (λ job. any (is_of_job job) e.receipts ≡ false) same_job
                (no_receipt injected' request' e again.0 again.1 is_again) in
            ground (arith, there, missing)
        | inr (refusal, is_refused) ↦ ap is_ok is_refused
      ])
