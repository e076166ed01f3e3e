-- ===== src/Api/Idempotency.antt =====
-- src-tauri/src/api/idempotency.rs, and the flow of a mutation in src-tauri/src/api/dispatch.rs. The rows of
-- `tool_requests` are a list, without their times. Each statement of the database may fail and then changes
-- nothing; JSON is another package's and is a pair of functions, and the state that a handler changes is any
-- type.

pub mod Once
pub mod Kept
pub mod Replay
mod Tests
use Prim.Native.String.{◌++◌}
use life_sub.Common.{
  ℕ, Bool, true, false, not, ◌&&◌, ◌||◌, Option, none, some, List, [], ◌∷◌, String, Result, ok, err,
  ◌==◌, if◌then◌else◌, any, str_eq,
}

pub data RequestState : Type 0 where
  in_progress succeeded failed : RequestState

-- The primary key.
pub record RequestKey : Type 0 where
  pub contract : String
  pub contract_version : ℕ
  pub principal_id : String
  pub idempotency_key : String

pub record ToolRequest : Type 0 where
  pub key : RequestKey
  pub principal_kind : String
  pub method : String
  pub request_fingerprint : String
  pub state : RequestState
  pub operation_id : Option String
  pub response_json : Option String
  pub error_code : Option String
  pub error_message_key : Option String

abbrev pub ToolRequests : Type 0
ToolRequests = List ToolRequest

pub data IdempotencyResult : Type 0 where
  proceed : IdempotencyResult
  is_in_progress : String → IdempotencyResult
  has_succeeded : String → IdempotencyResult
  has_failed : String → String → IdempotencyResult

-- An error of the database.
pub data IdempotencyError : Type 0 where
  catalog_failed : IdempotencyError

unfoldable pub key_eq : RequestKey → RequestKey → Bool
key_eq a b =
    str_eq a.contract b.contract
    && a.contract_version == b.contract_version
    && str_eq a.principal_id b.principal_id
    && str_eq a.idempotency_key b.idempotency_key

unfoldable pub find_request : RequestKey → ToolRequests → Option ToolRequest
find_request k [] = none
find_request k (r ∷ rs) = if key_eq r.key k then some r else find_request k rs

abbrev pub or_default : Option String → String
or_default none = ""
or_default (some s) = s

abbrev pub cached : ToolRequest → RequestState → IdempotencyResult
cached r in_progress = is_in_progress (or_default r.operation_id)
cached r succeeded = has_succeeded (or_default r.response_json)
cached r failed = has_failed (or_default r.error_code) (or_default r.error_message_key)

-- What comes with a request: who makes it, the method and the fingerprint of its parameters.
pub record Claim : Type 0 where
  pub claimed : RequestKey
  pub caller_kind : String
  pub called_method : String
  pub fingerprint : String

unfoldable pub new_request : Claim → ToolRequest
new_request c = record {
  key = c.claimed;
  principal_kind = c.caller_kind;
  method = c.called_method;
  request_fingerprint = c.fingerprint;
  state = in_progress;
  operation_id = none;
  response_json = none;
  error_code = none;
  error_message_key = none;
}

-- Whether the statements of a request succeed: the query, the insertion, and the update at its end.
pub record Answers : Type 0 where
  pub query : Bool
  pub insertion : Bool
  pub update : Bool

abbrev pub CheckResult : Type 0
CheckResult = Result IdempotencyError IdempotencyResult

-- The insertion, which the primary key refuses if the row is there.
unfoldable pub insert_request : Bool → Claim → ToolRequests → ToolRequests × CheckResult
unfolding find_request new_request
insert_request succeeds c rs =
    if succeeds && not (any (λ r. key_eq r.key c.claimed) rs)
    then (new_request c ∷ rs, ok proceed)
    else (rs, err catalog_failed)

-- A query that fails is taken for one that finds nothing.
unfoldable pub check_or_claim : Answers → Claim → ToolRequests → ToolRequests × CheckResult
unfolding find_request insert_request
check_or_claim answers c rs = elim (if answers.query then find_request c.claimed rs else none) [
  | some r ↦ (rs, ok (cached r r.state))
  | none ↦ insert_request answers.insertion c rs
]

unfoldable pub update_request :
    RequestKey → (ToolRequest → ToolRequest) → ToolRequests → ToolRequests
update_request k f [] = []
update_request k f (r ∷ rs) = (if key_eq r.key k then f r else r) ∷ update_request k f rs

unfoldable pub commit_success :
    Bool → RequestKey → String → Option String → ToolRequests → ToolRequests
unfolding update_request
commit_success succeeds k response operation rs =
    if succeeds
    then update_request k
        (λ r. record r {
          state = succeeded;
          response_json = some response;
          operation_id = operation;
        })
        rs
    else rs

unfoldable pub commit_failure : Bool → RequestKey → String → String → ToolRequests → ToolRequests
unfolding update_request
commit_failure succeeds k code message rs =
    if succeeds
    then update_request k
        (λ r. record r { state = failed; error_code = some code; error_message_key = some message })
        rs
    else rs

-- The envelope of a response; an error has its code and its message.
pub data Response (V : Type 0) : Type 0 where
  success : String → V → Response V
  failure : String → String → String → Response V

pub record Json (V : Type 0) : Type 0 where
  pub to_string : Response V → String
  pub from_str : String → Option (Response V)

pub record Mutation (S V : Type 0) : Type 0 where
  pub claim : Claim
  pub request_id : String
  pub on_proceed : S → S × Result (String × String) V

abbrev pub replayed : {V : Type 0} → String → Option (Response V) → Response V
replayed request_id (some response) = response
replayed request_id none = failure request_id "internal_error" "cached response corrupted"

module _ {V : Type 0} (json : Json V) where
  -- The result of an update is not looked at.
  unfoldable pub finalize_mutation :
      Bool
      → RequestKey
      → String
      → Result (String × String) V
      → ToolRequests
      → ToolRequests × Response V
  unfolding commit_success commit_failure
  finalize_mutation succeeds k request_id (ok value) rs =
      let response = success request_id value in
      (commit_success succeeds k (json.to_string response) none rs, response)
  finalize_mutation succeeds k request_id (err (code, message)) rs =
      (commit_failure succeeds k code message rs, failure request_id code message)

module _ {S V : Type 0} (json : Json V) where
  unfoldable pub respond :
      Answers → Mutation S V → CheckResult → ToolRequests → S → ToolRequests × S × Response V
  unfolding finalize_mutation
  respond answers m (ok proceed) rs s =
      let (s', result) = m.on_proceed s in
      let (rs', response) =
        finalize_mutation json answers.update m.claim.claimed m.request_id result rs in
      (rs', s', response)
  respond answers m (ok (is_in_progress operation)) rs s = (
    rs,
    s,
    failure m.request_id "operation_in_progress" ("operation " ++ operation ++ " is in progress"),
  )
  respond answers m (ok (has_succeeded response)) rs s =
      (rs, s, replayed m.request_id (json.from_str response))
  respond answers m (ok (has_failed code message)) rs s = (rs, s, failure m.request_id code message)
  respond answers m (err e) rs s =
      (rs, s, failure m.request_id "internal_error" "idempotency check failed")

  unfoldable pub mutation_flow :
      Answers → Mutation S V → ToolRequests → S → ToolRequests × S × Response V
  unfolding check_or_claim respond
  mutation_flow answers m rs s =
      let (rs', r) = check_or_claim answers m.claim rs in respond answers m r rs' s

  -- Requests one after the other.
  unfoldable pub flow_all : List (Answers × Mutation S V) → ToolRequests → S → ToolRequests × S
  flow_all [] rs s = (rs, s)
  flow_all ((answers, m) ∷ ms) rs s =
      let (rs', s', _) = mutation_flow answers m rs s in flow_all ms rs' s'
