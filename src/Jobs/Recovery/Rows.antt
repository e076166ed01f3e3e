-- ===== src/Jobs/Recovery/Rows.antt =====
-- src-tauri/src/catalog/jobs.rs: rows by their key, under an update of one row and in an order.
use life_sub.Common.{
  ◌≡◌, refl, ap, ◌∙◌, subst, inl, inr, Bool, true, false, ◌||◌, some, List, [], ◌∷◌, String, any,
  All, str_eq, str_eq_iff, arith, Bool-cases,
}
use life_sub.Jobs.{AsrJob, update_where, changed_by, find_job, is_active}
use life_sub.Jobs.Recovery.{candidates, insert_job, order_jobs, is_before}
use life_sub.Jobs.Running.{HaveUniqueIds, has_id, not_selected}

pub str_eq_refl : (x : String) → str_eq x x ≡ true
str_eq_refl x = (str_eq_iff x x).1 refl

pub str_eq_sym : (x y : String) → str_eq x y ≡ str_eq y x
str_eq_sym x y = ground (arith, str_eq_iff x y, str_eq_iff y x)

module _ (p : AsrJob → Bool) (f : AsrJob → AsrJob) (k : String) where
  pub find-other :
      (js : List AsrJob) (x : String)
      → ((j : AsrJob) → (f j).id ≡ j.id)
      → ((j : AsrJob) → p j ≡ true → has_id k j ≡ true)
      → str_eq k x ≡ false
      → find_job (has_id x) (update_where p f js) ≡ find_job (has_id x) js
  unfolding find_job update_where
  find-other [] x same selects other = refl
  find-other (j ∷ js) x same selects other = elim (Bool-cases (p j)) [
    | inl e ↦
        let mine = (str_eq_iff j.id k).0 (selects j e) in
        let not_x : has_id x j ≡ false = ap (λ (y : String). str_eq y x) mine ∙ other in
        rw (e, same j, not_x) (find-other js x same selects other)
    | inr e ↦ rw (e, find-other js x same selects other) refl
  ]

  pub find-same :
      (js : List AsrJob) (c : AsrJob)
      → ((j : AsrJob) → (f j).id ≡ j.id)
      → ((j : AsrJob) → p j ≡ true → has_id k j ≡ true)
      → HaveUniqueIds js
      → find_job (has_id k) js ≡ some c
      → p c ≡ true
      → (find_job (has_id k) (update_where p f js) ≡ some (f c)) × (changed_by p js ≡ 1)
  unfolding find_job update_where changed_by
  find-same [] c same selects v h e = cc
  find-same (j ∷ js) c same selects (fresh, v) h e = elim (Bool-cases (has_id k j)) [
    | inl mine ↦
        let gone = subst (λ y. any (has_id y) js ≡ false) ((str_eq_iff j.id k).0 mine) fresh in
        let (_, none_changed, _) = not_selected p (has_id k) f js selects gone in
        let is_c : j ≡ c = ground arith in
        let pj : p j ≡ true = ap p is_c ∙ e in
        let mine' : has_id k (f j) ≡ true = ap (λ (y : String). str_eq y k) (same j) ∙ mine in
        rw (pj, mine', none_changed) (ap (λ x. some (f x)) is_c, refl)
    | inr other ↦ elim (Bool-cases (p j)) [
      | inl pj ↦ ground (arith, selects j)
      | inr pj ↦
          let (found, one) = find-same js c same selects v (ground arith) e in
          rw (pj, other) (found, one)
    ]
  ]

-- A row is found by its key.
abbrev pub IsFound : List AsrJob → AsrJob → Type 0
IsFound js c = find_job (has_id c.id) js ≡ some c

IsFound-behind :
    (j : AsrJob) (js cs : List AsrJob)
    → any (has_id j.id) cs ≡ false
    → All (IsFound js) cs
    → All (IsFound (j ∷ js)) cs
unfolding find_job
IsFound-behind j js [] fresh v = tt
IsFound-behind j js (c ∷ cs) fresh v =
    (ground (arith, str_eq_sym j.id c.id), IsFound-behind j js cs (ground arith) (v.1))

pub All-IsFound : (js : List AsrJob) → HaveUniqueIds js → All (IsFound js) js
unfolding find_job
All-IsFound [] v = tt
All-IsFound (j ∷ js) (fresh, v) =
    (rw (str_eq_refl j.id) refl, IsFound-behind j js js fresh (All-IsFound js v))

pub candidates-All :
    (P : AsrJob → Type 0) (js : List AsrJob)
    → All P js
    → All (λ j. P j × (is_active j ≡ true)) (candidates js)
unfolding candidates
candidates-All P [] v = tt
candidates-All P (j ∷ js) v = elim (Bool-cases (is_active j)) [
  | inl e ↦ rw e ((v.0, e), candidates-All P js v.1)
  | inr e ↦ rw e (candidates-All P js v.1)
]

candidates_fresh :
    (x : String) (js : List AsrJob)
    → any (has_id x) js ≡ false
    → any (has_id x) (candidates js) ≡ false
unfolding candidates
candidates_fresh x [] h = refl
candidates_fresh x (j ∷ js) h = ground (arith, candidates_fresh x js)

pub candidates-HaveUniqueIds : (js : List AsrJob) → HaveUniqueIds js → HaveUniqueIds (candidates js)
unfolding candidates
candidates-HaveUniqueIds [] v = tt
candidates-HaveUniqueIds (j ∷ js) (fresh, v) = elim (Bool-cases (is_active j)) [
  | inl e ↦ rw e (candidates_fresh j.id js fresh, candidates-HaveUniqueIds js v)
  | inr e ↦ rw e (candidates-HaveUniqueIds js v)
]

-- An active row is a candidate.
pub candidate_of :
    (x : String) (js : List AsrJob) (j : AsrJob)
    → find_job (has_id x) js ≡ some j
    → is_active j ≡ true
    → any (has_id x) (candidates js) ≡ true
unfolding find_job candidates
candidate_of x [] j h e = cc
candidate_of x (k ∷ ks) j h e = ground (arith, candidate_of x ks j)

module _ (before : String → String → Bool) where
  insert-All :
      (P : AsrJob → Type 0) (j : AsrJob) (js : List AsrJob)
      → P j
      → All P js
      → All P (insert_job before j js)
  unfolding insert_job
  insert-All P j [] h v = (h, tt)
  insert-All P j (k ∷ ks) h v = elim (Bool-cases (is_before before j k)) [
    | inl e ↦ rw e (h, v)
    | inr e ↦ rw e (v.0, insert-All P j ks h v.1)
  ]

  pub order-All : (P : AsrJob → Type 0) (js : List AsrJob) → All P js → All P (order_jobs before js)
  unfolding order_jobs
  order-All P [] v = tt
  order-All P (j ∷ js) v = insert-All P j (order_jobs before js) v.0 (order-All P js v.1)

  insert-any :
      (x : String) (j : AsrJob) (js : List AsrJob)
      → any (has_id x) (insert_job before j js) ≡ (has_id x j || any (has_id x) js)
  unfolding insert_job
  insert-any x j [] = refl
  insert-any x j (k ∷ ks) = ground (arith, insert-any x j ks)

  pub order-any :
      (x : String) (js : List AsrJob) → any (has_id x) (order_jobs before js) ≡ any (has_id x) js
  unfolding order_jobs
  order-any x [] = refl
  order-any x (j ∷ js) = ground (arith, insert-any x j (order_jobs before js), order-any x js)

  insert-HaveUniqueIds :
      (j : AsrJob) (js : List AsrJob)
      → any (has_id j.id) js ≡ false
      → HaveUniqueIds js
      → HaveUniqueIds (insert_job before j js)
  unfolding insert_job
  insert-HaveUniqueIds j [] fresh v = (refl, tt)
  insert-HaveUniqueIds j (k ∷ ks) fresh v = elim (Bool-cases (is_before before j k)) [
    | inl e ↦ rw e (fresh, v)
    | inr e ↦ rw e (
      ground (arith, insert-any k.id j ks, str_eq_sym j.id k.id),
      insert-HaveUniqueIds j ks (ground arith) v.1,
    )
  ]

  pub order-HaveUniqueIds :
      (js : List AsrJob) → HaveUniqueIds js → HaveUniqueIds (order_jobs before js)
  unfolding order_jobs
  order-HaveUniqueIds [] v = tt
  order-HaveUniqueIds (j ∷ js) (fresh, v) =
      insert-HaveUniqueIds j (order_jobs before js) (order-any j.id js ∙ fresh)
        (order-HaveUniqueIds js v)
