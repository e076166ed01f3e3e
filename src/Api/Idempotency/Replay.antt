-- ===== src/Api/Idempotency/Replay.antt =====
-- src-tauri/src/api/idempotency.rs: the answer to a request that comes again.
use life_sub.Common.{
  ◌≡◌, refl, ap, ◌∙◌, Bool, true, false, none, some, List, [], ◌∷◌, String, Result, ok, err, any,
  arith,
}
use life_sub.Api.Idempotency.{
  RequestKey, ToolRequest, ToolRequests, succeeded, failed, IdempotencyResult, proceed,
  has_succeeded, has_failed, key_eq, find_request, cached, Claim, new_request, Answers,
  insert_request, check_or_claim, update_request, commit_success, commit_failure, Response, success,
  failure, Json, Mutation, finalize_mutation, respond, mutation_flow, flow_all,
}
use life_sub.Api.Idempotency.Once.{key_eq_refl}
use life_sub.Api.Idempotency.Kept.{flow_all-found}

-- What the second of two requests with a key is answered, by the result of the first's handler.
abbrev pub Replays :
    {V : Type 0} → String → String → Result (String × String) V → Response V → Type 0
Replays first second (ok value) response = response ≡ success first value
Replays first second (err (code, message)) response = response ≡ failure second code message

absent :
    (k : RequestKey) (rs : ToolRequests)
    → find_request k rs ≡ none
    → any (λ r. key_eq r.key k) rs ≡ false
unfolding find_request
absent k [] h = refl
absent k (r ∷ rs) h = ground (arith, absent k rs)

claims :
    (b : Bool) (c : Claim) (rs : ToolRequests)
    → find_request c.claimed rs ≡ none
    → check_or_claim (record { query = b; insertion = true; update = true }) c rs
      ≡ (new_request c ∷ rs, ok proceed)
unfolding check_or_claim insert_request
claims true c rs free = rw (free, check_or_claim, absent c.claimed rs free) refl
claims false c rs free = rw (absent c.claimed rs free, check_or_claim) refl

repeats :
    (i u : Bool) (c : Claim) (rs : ToolRequests) (r : ToolRequest)
    → find_request c.claimed rs ≡ some r
    → check_or_claim (record { query = true; insertion = i; update = u }) c rs
      ≡ (rs, ok (cached r r.state))
unfolding check_or_claim
repeats i u c rs r there = rw (there, check_or_claim) refl

module _ {V : Type 0} (json : Json V) where
  -- What a result is stored as.
  abbrev outcome : String → Result (String × String) V → IdempotencyResult
  outcome id (ok value) = has_succeeded (json.to_string (success id value))
  outcome id (err (code, message)) = has_failed code message

  finalized :
      (c : Claim) (id : String) (result : Result (String × String) V) (rs : ToolRequests)
      → (r : ToolRequest) × (find_request c.claimed
            ((finalize_mutation json true c.claimed id result (new_request c ∷ rs)).0)
          ≡ some r)
        × (cached r r.state ≡ outcome id result)
  unfolding finalize_mutation commit_success commit_failure update_request find_request new_request
  finalized c id (ok value) rs = (
    record (new_request c) {
      state = succeeded;
      response_json = some (json.to_string (success id value));
      operation_id = none;
    },
    rw (key_eq_refl c.claimed, find_request) (rw (key_eq_refl c.claimed) refl),
    refl,
  )
  finalized c id (err (code, message)) rs = (
    record (new_request c) {
      state = failed;
      error_code = some code;
      error_message_key = some message;
    },
    rw (key_eq_refl c.claimed, find_request) (rw (key_eq_refl c.claimed) refl),
    refl,
  )

module _ {S V : Type 0} (json : Json V) where
  first_flow :
      (b : Bool) (m : Mutation S V) (rs : ToolRequests) (s : S)
      → find_request m.claim.claimed rs ≡ none
      → mutation_flow json (record { query = b; insertion = true; update = true }) m rs s ≡ (
        (finalize_mutation json true m.claim.claimed m.request_id
            ((m.on_proceed s).1)
            (new_request m.claim ∷ rs)).0,
        (m.on_proceed s).0,
        (finalize_mutation json true m.claim.claimed m.request_id
            ((m.on_proceed s).1)
            (new_request m.claim ∷ rs)).1,
      )
  unfolding mutation_flow respond
  first_flow b m rs s free =
      ap (λ x. respond json (record { query = b; insertion = true; update = true }) m x.1 x.0 s)
        (claims b m.claim rs free)

  second_flow :
      (i u : Bool) (m : Mutation S V) (rs : ToolRequests) (s : S) (r : ToolRequest)
      → find_request m.claim.claimed rs ≡ some r
      → mutation_flow json (record { query = true; insertion = i; update = u }) m rs s
        ≡ respond json
            (record { query = true; insertion = i; update = u })
            m
            (ok (cached r r.state))
            rs
            s
  unfolding mutation_flow
  second_flow i u m rs s r there =
      ap (λ x. respond json (record { query = true; insertion = i; update = u }) m x.1 x.0 s)
        (repeats i u m.claim rs r there)

  answered :
      (answers : Answers) (first : String) (m : Mutation S V) (result : Result (String × String) V)
      (rs : ToolRequests) (s : S)
      → ((value : V)
          → result ≡ ok value
          → json.from_str (json.to_string (success first value)) ≡ some (success first value))
      → ((respond json answers m (ok (outcome json first result)) rs s).1 ≡ s)
        × Replays first m.request_id result
            ((respond json answers m (ok (outcome json first result)) rs s).2)
  unfolding respond
  answered answers first m (ok value) rs s parses = (refl, rw (parses value refl) refl)
  answered answers first m (err (code, message)) rs s parses = (refl, refl)

  -- Where a key has no row, the first request with it is served, and if its statements succeed, a later request
  -- with the key whose query succeeds is not served, whatever else it asks for and whatever requests come between,
  -- with the key or with others and with any failures of their statements: it is answered with the very response
  -- of the first, or with the first's error. JSON gives back the response of the first as it was written.
  pub mutation_flow-Replays :
      (b i u : Bool) (m later : Mutation S V) (others : List (Answers × Mutation S V))
      (rs : ToolRequests) (s : S)
      → ((value : V)
          → (m.on_proceed s).1 ≡ ok value
          → json.from_str (json.to_string (success m.request_id value))
            ≡ some (success m.request_id value))
      → find_request m.claim.claimed rs ≡ none
      → later.claim.claimed ≡ m.claim.claimed
      → ((mutation_flow json (record { query = b; insertion = true; update = true }) m rs s).1
          ≡ (m.on_proceed s).0)
        × (let (table, state) =
              flow_all json
                ((record { query = b; insertion = true; update = true }, m) ∷ others)
                rs
                s in
            ((mutation_flow json
                (record { query = true; insertion = i; update = u })
                later
                table
                state).1
              ≡ state)
            × Replays m.request_id later.request_id ((m.on_proceed s).1) (
                (mutation_flow json
                  (record { query = true; insertion = i; update = u })
                  later
                  table
                  state).2))
  unfolding flow_all
  mutation_flow-Replays b i u m later others rs s parses free same =
      let first =
        mutation_flow json (record { query = b; insertion = true; update = true }) m rs s in
      let table = (flow_all json others first.0 first.1).0 in
      let state = (flow_all json others first.0 first.1).1 in
      let (r, there, is_cached) = finalized json m.claim m.request_id ((m.on_proceed s).1) rs in
      let flow = first_flow b m rs s free in
      let row = ap (λ x. find_request m.claim.claimed x.0) flow ∙ there in
      let still = flow_all-found json m.claim.claimed others first.0 first.1 r row in
      let again =
        second_flow i u later table state r (ap (λ k. find_request k table) same ∙ still)
        ∙ ap
            (λ c.
              respond json (record { query = true; insertion = i; update = u }) later (ok c) table
                state)
            is_cached in
      let (kept, replay) =
        answered (record { query = true; insertion = i; update = u }) m.request_id later
          ((m.on_proceed s).1) table state parses in
      (ap (λ x. x.1) flow, rw again (kept, replay))
