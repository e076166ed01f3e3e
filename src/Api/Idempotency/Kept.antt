-- ===== src/Api/Idempotency/Kept.antt =====
-- src-tauri/src/api/idempotency.rs: requests leave the rows of earlier ones as they are.
use life_sub.Common.{
  ℕ, ◌≡◌, refl, ap, ◌∙◌, subst, ◌⊎◌, inl, inr, Bool, true, false, not, ◌&&◌, Option, none, some,
  List, [], ◌∷◌, String, Result, ok, err, if◌then◌else◌, any, str_eq_iff, arith, Bool-cases, ◌==◌,
}
use life_sub.Api.Idempotency.{
  RequestKey, ToolRequest, ToolRequests, succeeded, failed, success, proceed, CheckResult, key_eq,
  find_request, cached, Claim, new_request, Answers, insert_request, check_or_claim, update_request,
  commit_success, commit_failure, Json, Mutation, finalize_mutation, respond, mutation_flow,
  flow_all,
}
use life_sub.Api.Idempotency.Once.{cached-proceed, respond_idle}

same_number : (m n : ℕ) → (m == n) ≡ true → m ≡ n
same_number m n h = ground arith

-- No row has the key.
abbrev IsFree : RequestKey → ToolRequests → Type 0
IsFree j rs = any (λ r. key_eq r.key j) rs ≡ false

key_eq-same : (a b : RequestKey) → key_eq a b ≡ true → a ≡ b
unfolding key_eq
key_eq-same a b h =
    let contract = (str_eq_iff a.contract b.contract).0 (ground arith) in
    let version = same_number a.contract_version b.contract_version (ground arith) in
    let principal = (str_eq_iff a.principal_id b.principal_id).0 (ground arith) in
    let key = (str_eq_iff a.idempotency_key b.idempotency_key).0 (ground arith) in ground arith

found-not_free :
    (k : RequestKey) (rs : ToolRequests) (r : ToolRequest)
    → find_request k rs ≡ some r
    → IsFree k rs
    → ⊥
unfolding find_request
found-not_free k [] r h free = cc
found-not_free k (x ∷ xs) r h free = ground (arith, found-not_free k xs r)

-- An update by a key that no row has changes no row.
update-free :
    (j : RequestKey) (f : ToolRequest → ToolRequest) (rs : ToolRequests)
    → IsFree j rs
    → update_request j f rs ≡ rs
unfolding update_request
update-free j f [] free = refl
update-free j f (r ∷ rs) free = ground (arith, update-free j f rs)

other_key :
    (k j : RequestKey) (rs : ToolRequests) (r : ToolRequest)
    → find_request k rs ≡ some r
    → IsFree j rs
    → key_eq j k ≡ false
other_key k j rs r there free = elim (Bool-cases (key_eq j k)) [
  | inl e ↦
      elim (found-not_free k rs r there (subst (λ x. IsFree x rs) (key_eq-same j k e) free)) [ ]
  | inr e ↦ e
]

-- The row of a new request is updated, and the others are not.
update-found :
    (k : RequestKey) (c : Claim) (f : ToolRequest → ToolRequest) (rs : ToolRequests)
    (r : ToolRequest)
    → ((x : ToolRequest) → (f x).key ≡ x.key)
    → find_request k rs ≡ some r
    → IsFree c.claimed rs
    → find_request k (update_request c.claimed f (new_request c ∷ rs)) ≡ some r
unfolding update_request find_request new_request
update-found k c f rs r same there free =
    let other = other_key k c.claimed rs r there free in
    elim (Bool-cases (key_eq c.claimed c.claimed)) [
      | inl e ↦ rw (e, same (new_request c), other, update-free c.claimed f rs free) there
      | inr e ↦ rw (e, other, update-free c.claimed f rs free) there
    ]

inserted-found :
    (k : RequestKey) (c : Claim) (rs : ToolRequests) (r : ToolRequest)
    → find_request k rs ≡ some r
    → IsFree c.claimed rs
    → find_request k (new_request c ∷ rs) ≡ some r
unfolding find_request new_request
inserted-found k c rs r there free = rw (other_key k c.claimed rs r there free) there

-- A request is not served, or its row is inserted.
abbrev Checked : Claim → ToolRequests → ToolRequests × CheckResult → Type 0
Checked c rs (rs', r) =
    ((rs' ≡ rs) × (r ≡ ok proceed → ⊥))
    ⊎ ((rs' ≡ new_request c ∷ rs) × (r ≡ ok proceed) × IsFree c.claimed rs)

insert_request-Checked :
    (succeeds : Bool) (c : Claim) (rs : ToolRequests) → Checked c rs (insert_request succeeds c rs)
unfolding insert_request
insert_request-Checked succeeds c rs =
    elim (Bool-cases (succeeds && not (any (λ r. key_eq r.key c.claimed) rs))) [
      | inl e ↦ rw (e, insert_request) (inr (refl, refl, ground arith))
      | inr e ↦ rw (e, insert_request) (inl (refl, λ h. ground arith))
    ]

check_or_claim-Checked :
    (answers : Answers) (c : Claim) (rs : ToolRequests) → Checked c rs (check_or_claim answers c rs)
unfolding check_or_claim
check_or_claim-Checked answers c rs = go (if answers.query then find_request c.claimed rs else none)
  where
    go :
        (o : Option ToolRequest)
        → Checked c rs (elim o [
          | some r ↦ (rs, ok (cached r r.state))
          | none ↦ insert_request answers.insertion c rs
        ])
    go (some r) = inl (refl, λ e. cached-proceed r r.state (ground arith))
    go none = insert_request-Checked answers.insertion c rs

module _ {S V : Type 0} (json : Json V) where
  finalize-found :
      (b : Bool) (k : RequestKey) (m : Mutation S V) (result : Result (String × String) V)
      (rs : ToolRequests) (r : ToolRequest)
      → find_request k rs ≡ some r
      → IsFree m.claim.claimed rs
      → find_request k (
          (finalize_mutation json b m.claim.claimed m.request_id result
            (new_request m.claim ∷ rs)).0)
        ≡ some r
  unfolding finalize_mutation commit_success commit_failure
  finalize-found true k m (ok v) rs r there free =
      update-found k m.claim
        (λ x. record x {
          state = succeeded;
          response_json = some (json.to_string (success m.request_id v));
          operation_id = none;
        })
        rs r (λ x. refl) there free
  finalize-found true k m (err (code, message)) rs r there free =
      update-found k m.claim
        (λ x. record x { state = failed; error_code = some code; error_message_key = some message })
        rs r (λ x. refl) there free
  finalize-found false k m (ok v) rs r there free = inserted-found k m.claim rs r there free
  finalize-found false k m (err (code, message)) rs r there free =
      inserted-found k m.claim rs r there free

  respond-found :
      (answers : Answers) (m : Mutation S V) (k : RequestKey) (rs : ToolRequests) (s : S)
      (r : ToolRequest) (x : ToolRequests × CheckResult)
      → find_request k rs ≡ some r
      → Checked m.claim rs x
      → find_request k ((respond json answers m x.1 x.0 s).0) ≡ some r
  unfolding respond
  respond-found answers m k rs s r (rs', check) there (inl (same, idle)) =
      ap (find_request k) ((respond_idle json answers m check rs' s idle).0 ∙ same) ∙ there
  respond-found answers m k rs s r (rs', check) there (inr (table, served, free)) =
      rw (table, served) (finalize-found answers.update k m ((m.on_proceed s).1) rs r there free)

  -- Requests, whatever their keys and whichever statements fail, leave a row that is there as it is.
  pub flow_all-found :
      (k : RequestKey) (ms : List (Answers × Mutation S V)) (rs : ToolRequests) (s : S)
      (r : ToolRequest)
      → find_request k rs ≡ some r
      → find_request k ((flow_all json ms rs s).0) ≡ some r
  unfolding flow_all mutation_flow
  flow_all-found k [] rs s r there = there
  flow_all-found k ((answers, m) ∷ ms) rs s r there =
      flow_all-found k ms ((mutation_flow json answers m rs s).0)
        ((mutation_flow json answers m rs s).1) r
        (respond-found answers m k rs s r (check_or_claim answers m.claim rs) there
          (check_or_claim-Checked answers m.claim rs))
