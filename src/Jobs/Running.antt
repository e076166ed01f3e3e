-- ===== src/Jobs/Running.antt =====
-- src-tauri/src/catalog/jobs.rs: no more than one job runs, and a stale owner changes nothing.
use life_sub.Common.{
  ◌≤◌, ◌≡◌, refl, ◌∙◌, ap, inl, inr, subst, Bool, true, false, List, [], ◌∷◌, String, any, str_eq,
  str_eq_iff, arith, Bool-cases,
}
use life_sub.Jobs.{
  AsrJob, Catalog, update_where, changed_by, is_active, is_unfinished, works_on, have_unique_work,
}

abbrev pub has_id : String → AsrJob → Bool
has_id x j = str_eq j.id x

-- The primary key of the table.
abbrev pub HaveUniqueIds : List AsrJob → Type 0
HaveUniqueIds [] = Unit {0}
HaveUniqueIds (j ∷ js) = (any (has_id j.id) js ≡ false) × HaveUniqueIds js

-- The rows have distinct keys, at most one of them is running under an owner, and no two unfinished ones
-- have the same fingerprint.
pub record IsValid (catalog : Catalog) : Type 0 where
  pub unique_ids : HaveUniqueIds catalog.jobs
  pub one_running : changed_by is_active catalog.jobs ≤ 1
  pub unique_work : have_unique_work catalog.jobs ≡ true

any-update :
    (x : String) (p : AsrJob → Bool) (f : AsrJob → AsrJob) (js : List AsrJob)
    → ((j : AsrJob) → (f j).id ≡ j.id)
    → any (has_id x) (update_where p f js) ≡ any (has_id x) js
unfolding update_where
any-update x p f [] same = refl
any-update x p f (j ∷ js) same = elim (Bool-cases (p j)) [
  | inl e ↦ rw (e, same j, any-update x p f js same) refl
  | inr e ↦ rw (e, any-update x p f js same) refl
]

pub update-HaveUniqueIds :
    (p : AsrJob → Bool) (f : AsrJob → AsrJob) (js : List AsrJob)
    → ((j : AsrJob) → (f j).id ≡ j.id)
    → HaveUniqueIds js
    → HaveUniqueIds (update_where p f js)
unfolding update_where
update-HaveUniqueIds p f [] same v = tt
update-HaveUniqueIds p f (j ∷ js) same (fresh, v) = elim (Bool-cases (p j)) [
  | inl e ↦ rw (e, same j) (any-update j.id p f js same ∙ fresh, update-HaveUniqueIds p f js same v)
  | inr e ↦ rw e (any-update j.id p f js same ∙ fresh, update-HaveUniqueIds p f js same v)
]

pub count-update :
    (p : AsrJob → Bool) (f : AsrJob → AsrJob) (js : List AsrJob)
    → ((j : AsrJob) → p j ≡ true → is_active (f j) ≡ true → is_active j ≡ true)
    → changed_by is_active (update_where p f js) ≤ changed_by is_active js
unfolding update_where changed_by
count-update p f [] keeps = omega arith
count-update p f (j ∷ js) keeps = ground (arith, count-update p f js keeps, keeps j)

pub none_selected :
    (x : String) (p : AsrJob → Bool) (f : AsrJob → AsrJob) (js : List AsrJob)
    → ((j : AsrJob) → p j ≡ true → has_id x j ≡ true)
    → any (has_id x) js ≡ false
    → update_where p f js ≡ js
unfolding update_where
none_selected x p f [] selects h = refl
none_selected x p f (j ∷ js) selects h = elim (Bool-cases (p j)) [
  | inl e ↦ ground (arith, selects j)
  | inr e ↦ rw e (ap (◌∷◌ j) (none_selected x p f js selects (ground arith)))
]

none_active : (js : List AsrJob) → any is_active js ≡ false → changed_by is_active js ≡ 0
unfolding changed_by
none_active [] h = refl
none_active (j ∷ js) h = ground (arith, none_active js)

-- An update of the row with one key makes one row active at most, where none was.
pub one_active :
    (x : String) (p : AsrJob → Bool) (f : AsrJob → AsrJob) (js : List AsrJob)
    → ((j : AsrJob) → p j ≡ true → has_id x j ≡ true)
    → HaveUniqueIds js
    → any is_active js ≡ false
    → changed_by is_active (update_where p f js) ≤ 1
unfolding update_where changed_by
one_active x p f [] selects v h = omega arith
one_active x p f (j ∷ js) selects (fresh, v) h = elim (Bool-cases (p j)) [
  | inl e ↦
      let same = (str_eq_iff j.id x).0 (selects j e) in
      let rest =
        none_selected x p f js selects (subst (λ y. any (has_id y) js ≡ false) same fresh) in
      rw (e, rest) (ground (arith, none_active js))
  | inr e ↦ rw e (ground (arith, one_active x p f js selects v))
]

abbrev pub KeepsWork : (AsrJob → Bool) → (AsrJob → AsrJob) → Type 0
KeepsWork p f =
    (j : AsrJob)
    → p j ≡ true
    → ((f j).fingerprint ≡ j.fingerprint)
      × (is_unfinished (f j).state ≡ true → is_unfinished j.state ≡ true)

no_new_work :
    (x : String) (p : AsrJob → Bool) (f : AsrJob → AsrJob) (js : List AsrJob)
    → KeepsWork p f
    → any (works_on x) js ≡ false
    → any (works_on x) (update_where p f js) ≡ false
unfolding update_where works_on
no_new_work x p f [] keeps h = refl
no_new_work x p f (j ∷ js) keeps h = elim (Bool-cases (p j)) [
  | inl e ↦
      let (same, less) = keeps j e in
      let rest = no_new_work x p f js keeps (ground arith) in rw (e, rest) (ground arith)
  | inr e ↦ rw e (ground (arith, no_new_work x p f js keeps))
]

pub update-work :
    (p : AsrJob → Bool) (f : AsrJob → AsrJob) (js : List AsrJob)
    → KeepsWork p f
    → have_unique_work js ≡ true
    → have_unique_work (update_where p f js) ≡ true
unfolding update_where have_unique_work
update-work p f [] keeps h = refl
update-work p f (j ∷ js) keeps h = elim (Bool-cases (p j)) [
  | inl e ↦
      let (same, less) = keeps j e in
      rw e (ground (arith, no_new_work j.fingerprint p f js keeps, update-work p f js keeps))
  | inr e ↦ rw e (ground (arith, no_new_work j.fingerprint p f js keeps, update-work p f js keeps))
]

-- An update that makes no row active keeps the catalog valid.
pub update-IsValid :
    (p : AsrJob → Bool) (f : AsrJob → AsrJob) (catalog : Catalog)
    → ((j : AsrJob) → (f j).id ≡ j.id)
    → ((j : AsrJob) → p j ≡ true → is_active (f j) ≡ true → is_active j ≡ true)
    → KeepsWork p f
    → IsValid catalog
    → IsValid (record catalog { jobs = update_where p f catalog.jobs })
update-IsValid p f catalog same keeps work v = record {
  unique_work = update-work p f catalog.jobs work v.unique_work;
  unique_ids = update-HaveUniqueIds p f catalog.jobs same v.unique_ids;
  one_running = omega (arith, count-update p f catalog.jobs keeps, v.one_running);
}

pub not_selected :
    (p q : AsrJob → Bool) (f : AsrJob → AsrJob) (js : List AsrJob)
    → ((j : AsrJob) → p j ≡ true → q j ≡ true)
    → any q js ≡ false
    → (update_where p f js ≡ js) × (changed_by p js ≡ 0) × (any p js ≡ false)
unfolding update_where changed_by
not_selected p q f [] sub h = (refl, refl, refl)
not_selected p q f (j ∷ js) sub h =
    let (same, none_changed, absent) = not_selected p q f js sub (ground arith) in
    elim (Bool-cases (p j)) [
      | inl e ↦ ground (arith, sub j e)
      | inr e ↦ rw e (ap (◌∷◌ j) same, none_changed, absent)
    ]
