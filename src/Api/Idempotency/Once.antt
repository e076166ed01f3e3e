-- ===== src/Api/Idempotency/Once.antt =====
-- src-tauri/src/api/idempotency.rs: a key is served by one handler at most.
use life_sub.Common.{
  ◌≡◌, refl, sym, ap, ◌∙◌, subst, ◌⊎◌, inl, inr, Bool, true, false, not, ◌&&◌, Option, none, some,
  List, [], ◌∷◌, ◌++◌, String, Result, ok, err, if◌then◌else◌, any, str_eq_iff, arith, Bool-cases,
}
use life_sub.Api.Idempotency.{
  RequestKey, ToolRequest, ToolRequests, RequestState, in_progress, succeeded, failed, proceed,
  is_in_progress, has_succeeded, has_failed, CheckResult, key_eq, find_request, cached, Claim,
  new_request, Answers, insert_request, check_or_claim, update_request, commit_success,
  commit_failure, Json, Mutation, finalize_mutation, respond, mutation_flow, flow_all,
}

pub key_eq_refl : (k : RequestKey) → key_eq k k ≡ true
unfolding key_eq
key_eq_refl k =
    rw
      (
        (str_eq_iff k.contract k.contract).1 refl,
        (str_eq_iff k.principal_id k.principal_id).1 refl,
        (str_eq_iff k.idempotency_key k.idempotency_key).1 refl,
      )
      (ground arith)

-- A row of the key is there.
abbrev pub HasKey : RequestKey → ToolRequests → Type 0
HasKey k rs = any (λ r. key_eq r.key k) rs ≡ true

update-HasKey :
    (k j : RequestKey) (f : ToolRequest → ToolRequest) (rs : ToolRequests)
    → ((r : ToolRequest) → (f r).key ≡ r.key)
    → any (λ r. key_eq r.key k) (update_request j f rs) ≡ any (λ r. key_eq r.key k) rs
unfolding update_request
update-HasKey k j f [] same = refl
update-HasKey k j f (r ∷ rs) same = ground (arith, update-HasKey k j f rs same, same r)

abbrev IsIdle : ToolRequests → ToolRequests × CheckResult → Type 0
IsIdle rs (rs', r) = (rs' ≡ rs) × (r ≡ ok proceed → ⊥)

pub cached-proceed : (r : ToolRequest) (s : RequestState) → cached r s ≡ proceed → ⊥
cached-proceed r in_progress h = cc
cached-proceed r succeeded h = cc
cached-proceed r failed h = cc

-- A key with a row is not claimed, whatever the database answers.
not_claimed :
    (answers : Answers) (c : Claim) (rs : ToolRequests)
    → HasKey c.claimed rs
    → IsIdle rs (check_or_claim answers c rs)
unfolding check_or_claim insert_request
not_claimed answers c rs h = go (if answers.query then find_request c.claimed rs else none)
  where
    go :
        (o : Option ToolRequest)
        → IsIdle rs (elim o [
          | some r ↦ (rs, ok (cached r r.state))
          | none ↦ insert_request answers.insertion c rs
        ])
    go (some r) = (refl, λ e. cached-proceed r r.state (ground arith))
    go none = (rw (h, insert_request) (ground arith), λ e. ground arith)

abbrev ClaimsRow : RequestKey → ToolRequests × CheckResult → Type 0
ClaimsRow k (rs', r) = r ≡ ok proceed → HasKey k rs'

inserted_row :
    (succeeds : Bool) (c : Claim) (rs : ToolRequests)
    → ClaimsRow c.claimed (insert_request succeeds c rs)
unfolding insert_request new_request
inserted_row succeeds c rs =
    elim (Bool-cases (succeeds && not (any (λ r. key_eq r.key c.claimed) rs))) [
      | inl e ↦ rw (e, insert_request) (λ _. rw (key_eq_refl c.claimed) refl)
      | inr e ↦ rw (e, insert_request) (λ h. ground arith)
    ]

claimed_row :
    (answers : Answers) (c : Claim) (rs : ToolRequests)
    → ClaimsRow c.claimed (check_or_claim answers c rs)
unfolding check_or_claim
claimed_row answers c rs = go (if answers.query then find_request c.claimed rs else none)
  where
    go :
        (o : Option ToolRequest)
        → ClaimsRow c.claimed (elim o [
          | some r ↦ (rs, ok (cached r r.state))
          | none ↦ insert_request answers.insertion c rs
        ])
    go (some r) e = elim (cached-proceed r r.state (ground arith)) [ ]
    go none e = inserted_row answers.insertion c rs e

module _ {V : Type 0} (json : Json V) where
  finalize-HasKey :
      (b : Bool) (k j : RequestKey) (id : String) (r : Result (String × String) V)
      (rs : ToolRequests)
      → HasKey k rs
      → HasKey k ((finalize_mutation json b j id r rs).0)
  unfolding finalize_mutation commit_success commit_failure
  finalize-HasKey true k j id (ok v) rs h = update-HasKey k j _ rs (λ r. refl) ∙ h
  finalize-HasKey true k j id (err e) rs h = update-HasKey k j _ rs (λ r. refl) ∙ h
  finalize-HasKey false k j id (ok v) rs h = h
  finalize-HasKey false k j id (err e) rs h = h

module _ {S V : Type 0} (json : Json V) where
  pub respond_idle :
      (answers : Answers) (m : Mutation S V) (r : CheckResult) (rs : ToolRequests) (s : S)
      → (r ≡ ok proceed → ⊥)
      → ((respond json answers m r rs s).0 ≡ rs) × ((respond json answers m r rs s).1 ≡ s)
  unfolding respond
  respond_idle answers m (ok proceed) rs s h = elim (h refl) [ ]
  respond_idle answers m (ok (is_in_progress o)) rs s h = (refl, refl)
  respond_idle answers m (ok (has_succeeded o)) rs s h = (refl, refl)
  respond_idle answers m (ok (has_failed c o)) rs s h = (refl, refl)
  respond_idle answers m (err e) rs s h = (refl, refl)

  respond_once :
      (answers : Answers) (m : Mutation S V) (r : CheckResult) (rs : ToolRequests) (s : S)
      → (r ≡ ok proceed → HasKey m.claim.claimed rs)
      → ((respond json answers m r rs s).1 ≡ s)
        ⊎ (((respond json answers m r rs s).1 ≡ (m.on_proceed s).0)
            × HasKey m.claim.claimed ((respond json answers m r rs s).0))
  unfolding respond
  respond_once answers m (ok proceed) rs s h = inr (
    refl,
    finalize-HasKey json answers.update m.claim.claimed m.claim.claimed m.request_id
        ((m.on_proceed s).1) rs (h refl),
  )
  respond_once answers m (ok (is_in_progress o)) rs s h = inl refl
  respond_once answers m (ok (has_succeeded o)) rs s h = inl refl
  respond_once answers m (ok (has_failed c o)) rs s h = inl refl
  respond_once answers m (err e) rs s h = inl refl

  flow_idle :
      (answers : Answers) (m : Mutation S V) (rs : ToolRequests) (s : S)
      → HasKey m.claim.claimed rs
      → ((mutation_flow json answers m rs s).0 ≡ rs) × ((mutation_flow json answers m rs s).1 ≡ s)
  unfolding mutation_flow
  flow_idle answers m rs s h =
      let (same, idle) = not_claimed answers m.claim rs h in
      let (table, state) =
        respond_idle answers m ((check_or_claim answers m.claim rs).1)
          ((check_or_claim answers m.claim rs).0) s idle in
      (table ∙ same, state)

  flow_once :
      (answers : Answers) (m : Mutation S V) (rs : ToolRequests) (s : S)
      → ((mutation_flow json answers m rs s).1 ≡ s)
        ⊎ (((mutation_flow json answers m rs s).1 ≡ (m.on_proceed s).0)
            × HasKey m.claim.claimed ((mutation_flow json answers m rs s).0))
  unfolding mutation_flow
  flow_once answers m rs s =
      respond_once answers m ((check_or_claim answers m.claim rs).1)
        ((check_or_claim answers m.claim rs).0) s (claimed_row answers m.claim rs)

  -- The requests that come with a key.
  abbrev pub AllWithKey : RequestKey → List (Answers × Mutation S V) → Type 0
  AllWithKey k [] = Unit {0}
  AllWithKey k ((answers, m) ∷ ms) = (m.claim.claimed ≡ k) × AllWithKey k ms

  flow_all_idle :
      (k : RequestKey) (ms : List (Answers × Mutation S V)) (rs : ToolRequests) (s : S)
      → AllWithKey k ms
      → HasKey k rs
      → (flow_all json ms rs s).1 ≡ s
  unfolding flow_all
  flow_all_idle k [] rs s same h = refl
  flow_all_idle k ((answers, m) ∷ ms) rs s (this, same) h =
      let (table, state) = flow_idle answers m rs s (subst (λ k. HasKey k rs) (sym this) h) in
      flow_all_idle k ms ((mutation_flow json answers m rs s).0)
        ((mutation_flow json answers m rs s).1) same (subst (λ t. HasKey k t) (sym table) h)
      ∙ state

  -- Requests that come with one key, whatever else they ask for and whichever statements of the database fail,
  -- change the state as one handler among theirs does, from the state before them, or not at all.
  pub flow_all_once :
      (k : RequestKey) (ms : List (Answers × Mutation S V)) (rs : ToolRequests) (s : S)
      → AllWithKey k ms
      → ((flow_all json ms rs s).1 ≡ s)
        ⊎ ((earlier : List (Answers × Mutation S V)) × (served : Answers × Mutation S V)
            × (later : List (Answers × Mutation S V)) × (ms ≡ earlier ++ (served ∷ later))
            × ((flow_all json ms rs s).1 ≡ (served.1.on_proceed s).0))
  unfolding flow_all
  flow_all_once k [] rs s same = inl refl
  flow_all_once k ((answers, m) ∷ ms) rs s (this, same) = elim (flow_once answers m rs s) [
    | inl idle ↦
        elim (flow_all_once k ms ((mutation_flow json answers m rs s).0)
          ((mutation_flow json answers m rs s).1) same) [
            | inl still ↦ inl (still ∙ idle)
            | inr (earlier, served, later, split, ran) ↦ inr (
              (answers, m) ∷ earlier,
              served,
              later,
              ap (λ l. (answers, m) ∷ l) split,
              ran ∙ ap (λ x. (served.1.on_proceed x).0) idle,
            )
          ]
    | inr (ran, there) ↦ inr (
      [],
      (answers, m),
      ms,
      refl,
      flow_all_idle k ms ((mutation_flow json answers m rs s).0)
            ((mutation_flow json answers m rs s).1) same
            (subst (λ k. HasKey k ((mutation_flow json answers m rs s).0)) this there)
          ∙ ran,
    )
  ]
