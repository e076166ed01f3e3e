-- ===== src/Api/Idempotency/Tests.antt =====
-- src-tauri/src/api/idempotency.rs: two requests that come with one key.
use life_sub.Common.{ℕ, suc, ◌≡◌, refl, ◌⊎◌, true, false, some, List, [], ◌∷◌, ◌++◌, String, ok}
use life_sub.Api.Idempotency.{
  RequestKey, Answers, find_request, Response, success, Json, Mutation, mutation_flow, flow_all,
}
use life_sub.Api.Idempotency.Once.{flow_all_once}
use life_sub.Api.Idempotency.Replay.{Replays, mutation_flow-Replays}

abbrev key : RequestKey
key = record {
  contract = "core";
  contract_version = 1;
  principal_id = "agent";
  idempotency_key = "k";
}

-- Responses without a value, by their ids.
abbrev json : Json (Unit {0})
json = record { to_string = name_of; from_str = λ id. some (success id tt) }
  where
    name_of : Response (Unit {0}) → String
    name_of (success id value) = id
    name_of (Response.failure id code message) = ""

abbrev count_up : String → String → String → Mutation ℕ (Unit {0})
count_up id method fingerprint = record {
  claim = record {
    claimed = key;
    caller_kind = "local_agent";
    called_method = method;
    fingerprint = fingerprint;
  };
  request_id = id;
  on_proceed = λ n. (suc n, ok tt);
}

abbrev sound : Answers
sound = record { query = true; insertion = true; update = true }

abbrev unread : Answers
unread = record { query = false; insertion = true; update = false }

abbrev requests : List (Answers × Mutation ℕ (Unit {0}))
requests =
    (unread, count_up "1" "install_model" "a") ∷ (unread, count_up "2" "delete_model" "b") ∷ []

flow_all_once_example :
    ((flow_all json requests [] 0).1 ≡ 0)
    ⊎ ((earlier : List (Answers × Mutation ℕ (Unit {0}))) × (served : Answers
          × Mutation ℕ (Unit {0}))
        × (later : List (Answers × Mutation ℕ (Unit {0}))) × (requests
            ≡ earlier ++ (served ∷ later))
        × ((flow_all json requests [] 0).1 ≡ (served.1.on_proceed 0).0))
flow_all_once_example = flow_all_once json key requests [] 0 (refl, (refl, tt))

-- A request with another key.
abbrev other_key : Mutation ℕ (Unit {0})
other_key = record (count_up "3" "delete_model" "b") {
  claim = record {
    claimed = record key { idempotency_key = "l" };
    caller_kind = "local_agent";
    called_method = "delete_model";
    fingerprint = "b";
  };
}

mutation_flow-Replays_example :
    ((mutation_flow json sound (count_up "1" "install_model" "a") [] 0).1 ≡ 1)
    × (let (table, state) =
          flow_all json
            ((sound, count_up "1" "install_model" "a") ∷ (sound, other_key) ∷ requests)
            []
            0 in
        ((mutation_flow json sound (count_up "2" "delete_model" "b") table state).1 ≡ state)
        × Replays "1" "2"
            (ok tt)
            ((mutation_flow json sound (count_up "2" "delete_model" "b") table state).2))
unfolding find_request
mutation_flow-Replays_example =
    mutation_flow-Replays json true true true (count_up "1" "install_model" "a")
      (count_up "2" "delete_model" "b") ((sound, other_key) ∷ requests) [] 0 (λ value e. refl) refl
      refl
