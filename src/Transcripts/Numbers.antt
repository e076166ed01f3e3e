-- ===== src/Transcripts/Numbers.antt =====
-- src-tauri/src/catalog.rs and src-tauri/src/catalog/publication.rs: the numbers of the revisions of a session.
use life_sub.Common.{
  ℕ, zero, suc, ◌≡◌, refl, sym, ap, ◌∙◌, subst, inl, inr, Bool, List, [], ◌∷◌, ◌++◌, String, ltb,
  arith, if◌then◌else◌, length, Bool-cases, str_eq, str_eq_iff,
}
use life_sub.Transcripts.{RevisionRow, TranscriptCatalog, max_number}
use life_sub.Transcripts.Changes.{Change, apply, apply_all, apply-Grows}

-- The numbers of a session's revisions, in the order in which they were made.
unfoldable pub numbers_of : String → List RevisionRow → List ℕ
numbers_of session [] = []
numbers_of session (r ∷ rs) =
    let rest = numbers_of session rs in
    if str_eq r.session_id session then r.number ∷ rest else rest

-- The numbers from 1 on.
unfoldable pub one_to : ℕ → List ℕ
one_to zero = []
one_to (suc n) = one_to n ++ suc n ∷ []

greatest : List ℕ → ℕ
greatest [] = 0
greatest (n ∷ ns) = let rest = greatest ns in if ltb rest n then n else rest

greatest-append :
    (ns : List ℕ) (m : ℕ)
    → greatest (ns ++ m ∷ []) ≡ (if ltb (greatest ns) m then m else greatest ns)
unfolding greatest
greatest-append [] m = refl
greatest-append (n ∷ ns) m = ground (arith, greatest-append ns m)

greatest-one_to : (n : ℕ) → greatest (one_to n) ≡ n
unfolding one_to greatest
greatest-one_to zero = refl
greatest-one_to (suc n) = ground (arith, greatest-append (one_to n) (suc n), greatest-one_to n)

max_number-numbers_of :
    (session : String) (rs : List RevisionRow)
    → max_number session rs ≡ greatest (numbers_of session rs)
unfolding max_number numbers_of greatest
max_number-numbers_of session [] = refl
max_number-numbers_of session (r ∷ rs) = ground (arith, max_number-numbers_of session rs)

numbers_of-append :
    (session : String) (rs : List RevisionRow) (new : RevisionRow)
    → numbers_of session (rs ++ new ∷ [])
      ≡ numbers_of session rs ++ (if str_eq new.session_id session then new.number ∷ [] else [])
unfolding numbers_of
numbers_of-append session [] new = refl
numbers_of-append session (r ∷ rs) new = ground (arith, numbers_of-append session rs new)

abbrev AreNumbered : List RevisionRow → Type 0
AreNumbered rs =
    (session : String) → numbers_of session rs ≡ one_to (length (numbers_of session rs))

length-snoc : (ns : List ℕ) (m : ℕ) → length (ns ++ m ∷ []) ≡ suc (length ns)
length-snoc [] m = refl
length-snoc (n ∷ ns) m = ap suc (length-snoc ns m)

numbered_snoc :
    (ns : List ℕ) (m : ℕ)
    → ns ≡ one_to (length ns)
    → m ≡ suc (greatest ns)
    → (ns ++ m ∷ []) ≡ one_to (length (ns ++ m ∷ []))
unfolding one_to
numbered_snoc ns m h k =
    let same = ap greatest h ∙ greatest-one_to (length ns) in
    ap (λ xs. xs ++ m ∷ []) h
    ∙ ap (λ x. one_to (length ns) ++ x ∷ []) (k ∙ ap suc same)
    ∙ sym (ap one_to (length-snoc ns m))

append_nil : (ns : List ℕ) → ns ++ [] ≡ ns
append_nil [] = refl
append_nil (n ∷ ns) = ap (◌∷◌ n) (append_nil ns)

snoc-AreNumbered :
    (rs : List RevisionRow) (new : RevisionRow)
    → new.number ≡ suc (max_number new.session_id rs)
    → AreNumbered rs
    → AreNumbered (rs ++ new ∷ [])
snoc-AreNumbered rs new next numbered session = elim (Bool-cases (str_eq new.session_id session)) [
  | inl e ↦
      let is_session = (str_eq_iff new.session_id session).0 e in
      let appended =
        numbers_of-append session rs new
        ∙ ap (λ b. numbers_of session rs ++ (if b then new.number ∷ [] else [])) e in
      let number =
        next
        ∙ ap (λ x. suc (max_number x rs)) is_session
        ∙ ap suc (max_number-numbers_of session rs) in
      subst (λ ns. ns ≡ one_to (length ns)) (sym appended)
        (numbered_snoc (numbers_of session rs) new.number (numbered session) number)
  | inr e ↦
      let appended =
        numbers_of-append session rs new
        ∙ ap (λ b. numbers_of session rs ++ (if b then new.number ∷ [] else [])) e in
      subst (λ ns. ns ≡ one_to (length ns)) (sym (appended ∙ append_nil (numbers_of session rs)))
        (numbered session)
]

apply-AreNumbered :
    (before : String → String → Bool) (x : Change) (c : TranscriptCatalog)
    → AreNumbered c.revisions
    → AreNumbered ((apply before x c).revisions)
apply-AreNumbered before x c numbered = elim (apply-Grows before x c).revisions_grow [
  | inl same ↦ subst AreNumbered (sym same) numbered
  | inr (new, more, next) ↦
      subst AreNumbered (sym more) (snoc-AreNumbered c.revisions new next numbered)
]

apply_all-AreNumbered :
    (before : String → String → Bool) (xs : List Change) (c : TranscriptCatalog)
    → AreNumbered c.revisions
    → AreNumbered ((apply_all before xs c).revisions)
unfolding apply_all
apply_all-AreNumbered before [] c numbered = numbered
apply_all-AreNumbered before (x ∷ xs) c numbered =
    apply_all-AreNumbered before xs (apply before x c) (apply-AreNumbered before x c numbered)

-- From a catalog without revisions, whatever revisions are appended, edited and published, in whatever order and
-- whichever of these calls fail, the revisions of a session have the numbers 1, 2, 3 and so on, in the order in
-- which they are made, without a gap and without a number twice.
pub apply_all-numbers :
    (before : String → String → Bool) (changes : List Change) (c : TranscriptCatalog)
    (session : String)
    → c.revisions ≡ []
    → let numbers = numbers_of session ((apply_all before changes c).revisions) in
      numbers ≡ one_to (length numbers)
unfolding numbers_of one_to
apply_all-numbers before changes c session empty =
    apply_all-AreNumbered before changes c (subst AreNumbered (sym empty) (λ _. refl)) session
