-- ===== src/Transcripts/Edited.antt =====
-- src-tauri/src/catalog.rs: what a manual revision keeps of the latest one.
use life_sub.Common.{
  ℕ, suc, ◌≡◌, refl, sym, ap, ◌∙◌, subst, Bool, true, false, not, ◌||◌, Option, none, some, List,
  [], ◌∷◌, String, ok, >>=-eq-ok, >>-eq-ok, arith, all, map, length, ◌==◌, is_empty, guard, ok_or,
  str_eq, str_eq_iff, trim, trim_is_empty,
}
use life_sub.Capture.Seal.{AudioSource}
use life_sub.Transcripts.{
  TranscriptSegment, TranscriptRevision, RevisionRow, PublicationError, ChunkRow, TranscriptCatalog,
  PublicationResult, insert_revision, insert_segments,
}
use life_sub.Transcripts.Kept.{guarded}
use life_sub.Transcripts.Inserted.{committed}
use life_sub.Transcripts.Manual.{
  latest_revision, is_bound, is_unbound, derive_segment, derive_segments, check_latest, segments_of,
  manual_row, manual_body, append_manual_revision_from_latest, no_segment, no_revision, not_covered,
  same_boundaries,
}

-- The boundaries of a segment, which an edit may not change.
abbrev pub boundaries : TranscriptSegment → String × ℕ × ℕ × AudioSource
boundaries s = (s.id, s.start_ms, s.end_ms, s.source)

abbrev is_bindable : Option ChunkRow → TranscriptSegment → Bool
is_bindable none s = is_bound s
is_bindable (some c) s = is_bound s || is_unbound s

cons_eq : {A : Type 0} {a b : A} {xs ys : List A} → a ≡ b → xs ≡ ys → (a ∷ xs) ≡ (b ∷ ys)
cons_eq e f = cc

ok_same : {A : Type 0} {a b : A} → ◌≡◌ {A = PublicationResult A} (ok a) (ok b) → a ≡ b
ok_same h = cc

derive_segment-keeps :
    (legacy : Option ChunkRow) (latest edited out : TranscriptSegment)
    → derive_segment legacy latest edited ≡ ok out
    → (str_eq latest.id edited.id ≡ true)
      × (out.id ≡ edited.id)
      × (out.start_ms ≡ latest.start_ms)
      × (out.end_ms ≡ latest.end_ms)
      × (out.source ≡ latest.source)
      × (out.text ≡ trim edited.text)
      × (trim_is_empty edited.text ≡ false)
unfolding derive_segment same_boundaries
derive_segment-keeps legacy latest edited out h = ground arith

derive_segment-binds :
    (legacy : Option ChunkRow) (latest edited out : TranscriptSegment)
    → derive_segment legacy latest edited ≡ ok out
    → is_bindable legacy latest ≡ true
    → is_bound out ≡ true
unfolding derive_segment
derive_segment-binds none latest edited out h k = ground arith
derive_segment-binds (some c) latest edited out h k = ground arith

derive_segment-boundaries :
    (legacy : Option ChunkRow) (latest edited out : TranscriptSegment)
    → derive_segment legacy latest edited ≡ ok out
    → boundaries out ≡ boundaries latest
derive_segment-boundaries legacy latest edited out h =
    let (same, is_id, start, end, source, _, _) = derive_segment-keeps legacy latest edited out h in
    let is_latest = is_id ∙ sym ((str_eq_iff latest.id edited.id).0 same) in cc

-- What an accepted list of edited segments keeps.
abbrev Edits :
    Option ChunkRow
    → List TranscriptSegment
    → List TranscriptSegment
    → List TranscriptSegment
    → Type 0
Edits legacy latest edited out =
    (map boundaries out ≡ map boundaries latest)
    × (map (λ s. s.text) out ≡ map (λ s. trim s.text) edited)
    × (all (λ s. not (trim_is_empty s.text)) edited ≡ true)
    × (all is_bound out ≡ true)

derive_segments-Edits :
    (legacy : Option ChunkRow) (latest edited out : List TranscriptSegment)
    → derive_segments legacy latest edited ≡ ok out
    → (length latest == length edited) ≡ true
    → all (is_bindable legacy) latest ≡ true
    → Edits legacy latest edited out
unfolding derive_segments
derive_segments-Edits legacy [] [] out h same bindable = ground arith
derive_segments-Edits legacy [] (e ∷ es) out h same bindable = ground arith
derive_segments-Edits legacy (l ∷ ls) [] out h same bindable = ground arith
derive_segments-Edits legacy (l ∷ ls) (e ∷ es) out h same bindable =
    let (first, is_first, h1) = >>=-eq-ok (derive_segment legacy l e) _ h in
    let (rest, is_rest, h2) = >>=-eq-ok (derive_segments legacy ls es) _ h1 in
    let (_, _, _, _, _, text, filled) = derive_segment-keeps legacy l e first is_first in
    let bounds = derive_segment-boundaries legacy l e first is_first in
    let bound = derive_segment-binds legacy l e first is_first (ground arith) in
    let (bounds', texts, all_filled, all_bound) =
      derive_segments-Edits legacy ls es rest is_rest (ground arith) (ground arith) in
    subst (Edits legacy (l ∷ ls) (e ∷ es)) (ok_same h2)
      (cons_eq bounds bounds', cons_eq text texts, ground arith, ground arith)

bindable_if :
    (c : ChunkRow) (ss : List TranscriptSegment)
    → (all is_unbound ss || all is_bound ss) ≡ true
    → all (is_bindable (some c)) ss ≡ true
bindable_if c [] h = refl
bindable_if c (s ∷ ss) h = ground (arith, bindable_if c ss)

check_latest-binds :
    (session : String) (chunks : List ChunkRow) (latest : List TranscriptSegment)
    (legacy : Option ChunkRow)
    → check_latest session chunks latest ≡ ok legacy
    → all (is_bindable legacy) latest ≡ true
unfolding check_latest
check_latest-binds session chunks latest none h = ground arith
check_latest-binds session chunks latest (some c) h = bindable_if c latest (ground arith)

ok_or-some :
    {A : Type 0} (o : Option A) (e : PublicationError) {a : A} → ok_or o e ≡ ok a → o ≡ some a
ok_or-some none e h = cc
ok_or-some (some b) e h = cc

ok_second :
    {A B : Type 0} {a a' : A} {b b' : B}
    → ◌≡◌ {A = PublicationResult (A × B)} (ok (a, b)) (ok (a', b'))
    → b ≡ b'
ok_second h = cc

-- A manual revision that is accepted follows the latest revision of the session: its number is the next one, its
-- segments have the latest one's identities, times and sources in the latest one's order, their texts are the
-- edited ones, trimmed, of which none is blank, and each is bound to a chunk and a time in it.
pub append_manual_revision-keeps :
    (before : String → String → Bool) (commits : Bool) (new_id : String) (now : ℕ)
    (session : String) (edited : List TranscriptSegment) (c d : TranscriptCatalog)
    (out : TranscriptRevision)
    → append_manual_revision_from_latest before commits new_id now session edited c ≡ (d, ok out)
    → (latest : RevisionRow) × (latest_revision session c.revisions ≡ some latest)
      × (out.number ≡ suc latest.number)
      × (map boundaries out.segments ≡ map boundaries (segments_of before latest.id c.segments))
      × (map (λ s. s.text) out.segments ≡ map (λ s. trim s.text) edited)
      × (all (λ s. not (trim_is_empty s.text)) edited ≡ true)
      × (all is_bound out.segments ≡ true)
unfolding append_manual_revision_from_latest manual_body
append_manual_revision-keeps before commits new_id now session edited c d out accepted =
    let h = committed commits c d out (manual_body before new_id now session edited c) accepted in
    let h1 = >>-eq-ok (guard (not (is_empty edited)) no_segment) _ h in
    let (latest, is_latest, h2) =
      >>=-eq-ok (ok_or (latest_revision session c.revisions) no_revision) _ h1 in
    let segments = segments_of before latest.id c.segments in
    let h3 = >>-eq-ok (guard (length segments == length edited) not_covered) _ h2 in
    let covered = guarded (length segments == length edited) not_covered _ h2 in
    let (legacy, checks, h4) = >>=-eq-ok (check_latest session c.chunks segments) _ h3 in
    let (derived, is_derived, h5) = >>=-eq-ok (derive_segments legacy segments edited) _ h4 in
    let (e, is_e, h6) = >>=-eq-ok (insert_revision (manual_row new_id now session latest) c) _ h5 in
    let (f, is_f, h7) = >>=-eq-ok (insert_segments new_id derived e) _ h6 in
    let (bounds, texts, filled, bound) =
      derive_segments-Edits legacy segments edited derived is_derived covered
        (check_latest-binds session c.chunks segments legacy checks) in
    let same = ok_second h7 in
    (
      latest,
      ok_or-some (latest_revision session c.revisions) no_revision is_latest,
      sym (ap (λ o. o.number) same),
      subst (λ o. map boundaries o.segments ≡ map boundaries segments) same bounds,
      subst (λ o. map (λ s. s.text) o.segments ≡ map (λ s. trim s.text) edited) same texts,
      filled,
      subst (λ o. all is_bound o.segments ≡ true) same bound,
    )
