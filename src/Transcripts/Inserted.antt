-- ===== src/Transcripts/Inserted.antt =====
-- src-tauri/src/catalog.rs and src-tauri/src/catalog/publication.rs: what the statements leave of the other tables,
-- and the changes of the catalog in sequence.
use life_sub.Common.{
  ℕ, suc, ◌≡◌, refl, sym, ◌∙◌, subst, ◌⊎◌, inr, Bool, true, false, not, none, some, List, [], ◌∷◌,
  ◌++◌, String, ok, err, ◌>>=◌, ◌>>◌, >>=-eq-ok, >>-eq-ok, arith, any, is_empty, guard, ok_or,
  length, ◌==◌,
}
use life_sub.Transcripts.{
  TranscriptSegment, TranscriptRevision, RevisionRow, StoredReceipt, TranscriptCatalog,
  PublicationResult, max_number, insert_revision, insert_segment, insert_segments,
  commit_transaction, append_body, unverified_row,
}
use life_sub.Transcripts.Publication.{
  PublicationFailurePoint, at_segment, at_search, TranscriptSegmentPublication, PublicationContext,
  published_segment,
}
use life_sub.Transcripts.Publishing.{with_first, fail_if_requested, publish_segments}
use life_sub.Transcripts.Manual.{
  latest_revision, segments_of, check_latest, derive_segments, manual_row, no_segment, no_revision,
  not_covered, manual_body,
}

-- No revision is lost, and there is at most one more, whose number follows the greatest of its session. The
-- receipts stay.
pub record Grows (c d : TranscriptCatalog) : Type 0 where
  pub revisions_grow :
      (d.revisions ≡ c.revisions)
      ⊎ ((new : RevisionRow) × (d.revisions ≡ c.revisions ++ new ∷ [])
          × (new.number ≡ suc (max_number new.session_id c.revisions)))
  pub receipts_stay : (p : StoredReceipt → Bool) → any p c.receipts ≡ true → any p d.receipts ≡ true

-- A statement that leaves the revisions and the receipts.
pub record Leaves (c d : TranscriptCatalog) : Type 0 where
  pub same_revisions : d.revisions ≡ c.revisions
  pub same_receipts : d.receipts ≡ c.receipts

pub Leaves-trans : {c d e : TranscriptCatalog} → Leaves c d → Leaves d e → Leaves c e
Leaves-trans f g = record {
  same_revisions = g.same_revisions ∙ f.same_revisions;
  same_receipts = g.same_receipts ∙ f.same_receipts;
}

insert_segment-Leaves :
    (revision : String) (s : TranscriptSegment) (c d : TranscriptCatalog)
    → insert_segment revision s c ≡ ok d
    → Leaves c d
unfolding insert_segment
insert_segment-Leaves revision s c d h = record {
  same_revisions = ground arith;
  same_receipts = ground arith;
}

insert_segments-Leaves :
    (revision : String) (ss : List TranscriptSegment) (c d : TranscriptCatalog)
    → insert_segments revision ss c ≡ ok d
    → Leaves c d
unfolding insert_segments
insert_segments-Leaves revision [] c d h = record {
  same_revisions = ground arith;
  same_receipts = ground arith;
}
insert_segments-Leaves revision (s ∷ ss) c d h =
    let (e, first, rest) =
      >>=-eq-ok (insert_segment revision s c) (insert_segments revision ss) h in
    Leaves-trans (insert_segment-Leaves revision s c e first)
      (insert_segments-Leaves revision ss e d rest)

last_of-segments :
    (injected : PublicationFailurePoint → Bool) (published : TranscriptSegment)
    (rest : PublicationResult (TranscriptCatalog × List TranscriptSegment)) (d : TranscriptCatalog)
    (out : List TranscriptSegment)
    → (fail_if_requested injected at_segment
        >> (fail_if_requested injected at_search >> (rest >>= λ r. ok (with_first published r))))
      ≡ ok (d, out)
    → (tail : List TranscriptSegment) × (rest ≡ ok (d, tail)) × (out ≡ published ∷ tail)
unfolding fail_if_requested
last_of-segments injected published (ok (e, tail)) d out h = (tail, ground arith, ground arith)
last_of-segments injected published (err e) d out h = ground arith

pub publish_segments-Leaves :
    (injected : PublicationFailurePoint → Bool) (revision : String) (context : PublicationContext)
    (ss : List TranscriptSegmentPublication) (c d : TranscriptCatalog)
    (out : List TranscriptSegment)
    → publish_segments injected revision context ss c ≡ ok (d, out)
    → Leaves c d
unfolding publish_segments
publish_segments-Leaves injected revision context [] c d out h = record {
  same_revisions = ground arith;
  same_receipts = ground arith;
}
publish_segments-Leaves injected revision context (s ∷ ss) c d out h =
    let (published, _, h1) = >>=-eq-ok (published_segment context s) _ h in
    let (e, inserted, h2) = >>=-eq-ok (insert_segment revision published c) _ h1 in
    let (tail, is_rest, _) =
      last_of-segments injected published (publish_segments injected revision context ss e) d out
        h2 in
    Leaves-trans (insert_segment-Leaves revision published c e inserted)
      (publish_segments-Leaves injected revision context ss e d tail is_rest)

insert_revision-Grows :
    (new : RevisionRow) (c d : TranscriptCatalog)
    → insert_revision new c ≡ ok d
    → (d.revisions ≡ c.revisions ++ new ∷ []) × (d.receipts ≡ c.receipts)
unfolding insert_revision
insert_revision-Grows new c d h = (ground arith, ground arith)

pub Grows-by :
    (new : RevisionRow) (c e f d : TranscriptCatalog)
    → insert_revision new c ≡ ok e
    → Leaves e f
    → f ≡ d
    → new.number ≡ suc (max_number new.session_id c.revisions)
    → Grows c d
Grows-by new c e f d is_e leaves same next =
    let (more, receipts) = insert_revision-Grows new c e is_e in
    subst (Grows c) same (record {
      revisions_grow = inr (new, leaves.same_revisions ∙ more, next);
      receipts_stay =
          λ p k. subst (λ rs. any p rs ≡ true) (sym (leaves.same_receipts ∙ receipts)) k;
    })

pub ok_first :
    {A B : Type 0} {a a' : A} {b b' : B}
    → ◌≡◌ {A = PublicationResult (A × B)} (ok (a, b)) (ok (a', b'))
    → a ≡ a'
ok_first h = cc

pub append_body-Grows :
    (new_id : String) (now : ℕ) (session provider : String) (ss : List TranscriptSegment)
    (c d : TranscriptCatalog) (out : TranscriptRevision)
    → append_body new_id now session provider ss c ≡ ok (d, out)
    → Grows c d
unfolding append_body
append_body-Grows new_id now session provider ss c d out h =
    let row = unverified_row new_id now session provider (suc (max_number session c.revisions)) in
    let (e, is_e, h1) = >>=-eq-ok (insert_revision row c) _ h in
    let (f, is_f, h2) = >>=-eq-ok (insert_segments new_id ss e) _ h1 in
    Grows-by row c e f d is_e (insert_segments-Leaves new_id ss e f is_f) (ok_first h2) refl

-- The latest revision is the one with the greatest number.
latest_revision-max :
    (session : String) (rs : List RevisionRow)
    → max_number session rs ≡ elim (latest_revision session rs) [ none ↦ 0 | some r ↦ r.number ]
unfolding latest_revision max_number
latest_revision-max session [] = refl
latest_revision-max session (r ∷ rs) = ground (arith, latest_revision-max session rs)

pub manual_body-Grows :
    (before : String → String → Bool) (new_id : String) (now : ℕ) (session : String)
    (ss : List TranscriptSegment) (c d : TranscriptCatalog) (out : TranscriptRevision)
    → manual_body before new_id now session ss c ≡ ok (d, out)
    → Grows c d
unfolding manual_body
manual_body-Grows before new_id now session ss c d out h =
    let h1 = >>-eq-ok (guard (not (is_empty ss)) no_segment) _ h in
    let (latest, is_latest, h2) =
      >>=-eq-ok (ok_or (latest_revision session c.revisions) no_revision) _ h1 in
    let latest_segments = segments_of before latest.id c.segments in
    let h3 = >>-eq-ok (guard (length latest_segments == length ss) not_covered) _ h2 in
    let (legacy, _, h4) = >>=-eq-ok (check_latest session c.chunks latest_segments) _ h3 in
    let (derived, _, h5) = >>=-eq-ok (derive_segments legacy latest_segments ss) _ h4 in
    let row = manual_row new_id now session latest in
    let (e, is_e, h6) = >>=-eq-ok (insert_revision row c) _ h5 in
    let (f, is_f, h7) = >>=-eq-ok (insert_segments new_id derived e) _ h6 in
    Grows-by row c e f d is_e (insert_segments-Leaves new_id derived e f is_f) (ok_first h7)
      (ground (arith, latest_revision-max session c.revisions, is_latest))

-- A transaction that succeeds is the one that its statements make.
pub committed :
    {A : Type 0} (commits : Bool) (c d : TranscriptCatalog) (a : A)
    (r : PublicationResult (TranscriptCatalog × A))
    → commit_transaction commits c r ≡ (d, ok a)
    → r ≡ ok (d, a)
unfolding commit_transaction
committed commits c d a (err e) h = ground arith
committed true c d a (ok (e, b)) h = ground arith
committed false c d a (ok (e, b)) h = ground arith
