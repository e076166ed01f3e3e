-- ===== src/Capture/Coordinator.antt =====
-- src-tauri/src/capture/coordinator.rs: the state of a native capture and its parts. The transport and the
-- committer are traits: what a call of theirs returns is an argument of the operation that makes it.
-- A `HashMap` over sources is a function into `Option`, a `HashSet` a function into `Bool`.
pub mod Operations
pub mod Events
pub mod Phases
pub mod Diagram
pub mod Draining
pub mod Reports
pub mod Ended
mod Tests
use life_sub.Common.{
  ℕ, zero, suc, Bool, true, false, not, ◌&&◌, ◌||◌, Option, none, some, List, [], ◌∷◌, String,
  Result, ok, err, ◌>>=◌, ◌>>◌, guard, if◌then◌else◌, any, all, is_empty,
}
use life_sub.Capture.Protocol.Headers.{Source, microphone, system_audio, source_eq}

pub record NativeCaptureSourceRequest : Type 0 where
  pub source : Source
  pub enabled : Bool

pub data NativeCaptureStableError : Type 0 where
  fatal : String → String → NativeCaptureStableError
  helper_exited protocol_violation backpressure commit_failed : NativeCaptureStableError
  device_interrupted : Source → String → NativeCaptureStableError

pub data NativeCaptureTransportError : Type 0 where
  unsupported_source : Source → NativeCaptureTransportError
  transport_helper_exited transport_protocol_violation : NativeCaptureTransportError
  transport_backpressure : NativeCaptureTransportError

pub data NativeCapturePhase : Type 0 where
  requested preflighted running paused stopping stopped : NativeCapturePhase
  failed : NativeCaptureStableError → NativeCapturePhase

pub data NativeCaptureSourceState : Type 0 where
  source_requested source_preflighted source_running source_recovering : NativeCaptureSourceState
  source_paused source_stopping source_stopped : NativeCaptureSourceState

pub data NativeCaptureDrainOutcome : Type 0 where
  pending complete : NativeCaptureDrainOutcome

pub data NativeCaptureCoordinatorError : Type 0 where
  duplicate_source : Source → NativeCaptureCoordinatorError
  no_enabled_sources : NativeCaptureCoordinatorError
  invalid_state : String → NativeCaptureCoordinatorError
  preflight_rejected : Source → NativeCaptureCoordinatorError
  stable : NativeCaptureStableError → NativeCaptureCoordinatorError

abbrev pub CoordinatorResult : Type 0 → Type 0
CoordinatorResult = Result NativeCaptureCoordinatorError

pub record NativeCaptureCoordinator : Type 0 where
  pub requested_sources : List NativeCaptureSourceRequest
  pub phase : NativeCapturePhase
  pub source_states : Source → Option NativeCaptureSourceState
  pub started_sources : Source → Bool
  pub stopped_enabled_sources : Source → Bool
  pub committed_chunks : ℕ
  pub selected_microphone_uid : Option String
  pub last_recovery_generation : Source → Option ℕ

-- The coordinator that a call leaves, with what it returns.
abbrev pub Step : Type 0 → Type 0
Step A = NativeCaptureCoordinator × CoordinatorResult A

-- `HashMap::insert` and `HashSet::insert`.
abbrev pub insert : {A : Type 0} → Source → A → (Source → A) → Source → A
insert k a m x = if source_eq k x then a else m x

abbrev pub is_source_state : NativeCaptureSourceState → NativeCaptureSourceState → Bool
is_source_state source_running source_running = true
is_source_state source_recovering source_recovering = true
is_source_state _ _ = false

abbrev pub has_state : NativeCaptureSourceState → Option NativeCaptureSourceState → Bool
has_state s none = false
has_state s (some t) = is_source_state s t

abbrev pub sources_of : List NativeCaptureSourceRequest → List Source
sources_of [] = []
sources_of (r ∷ rs) = if r.enabled then r.source ∷ sources_of rs else sources_of rs

unfoldable pub enabled_sources : NativeCaptureCoordinator → List Source
enabled_sources c = sources_of c.requested_sources

abbrev pub filter_started : (Source → Bool) → List Source → List Source
filter_started started [] = []
filter_started started (s ∷ ss) =
    if started s then s ∷ filter_started started ss else filter_started started ss

unfoldable pub enabled_started_sources : NativeCaptureCoordinator → List Source
enabled_started_sources c = filter_started c.started_sources (enabled_sources c)

-- The loop that gives every source of a list the same state.
abbrev pub set_all : {A : Type 0} → List Source → A → (Source → A) → Source → A
set_all [] a m = m
set_all (s ∷ ss) a m = set_all ss a (insert s a m)

unfoldable pub all_enabled_sources_stopped : NativeCaptureCoordinator → Bool
all_enabled_sources_stopped c = all c.stopped_enabled_sources (enabled_sources c)

abbrev pub check_phase : NativeCapturePhase → CoordinatorResult (Unit {0})
check_phase (failed e) = err (stable e)
check_phase _ = ok tt

unfoldable pub ensure_not_failed : NativeCaptureCoordinator → CoordinatorResult (Unit {0})
ensure_not_failed c = check_phase c.phase

unfoldable pub enter_failed :
    {A : Type 0} → NativeCaptureStableError → NativeCaptureCoordinator → Step A
enter_failed e c = (record c { phase = failed e }, err (stable e))

unfoldable pub transport_error_to_stable : NativeCaptureTransportError → NativeCaptureStableError
transport_error_to_stable (unsupported_source s) = device_interrupted s "unsupported source"
transport_error_to_stable transport_helper_exited = helper_exited
transport_error_to_stable transport_protocol_violation = protocol_violation
transport_error_to_stable transport_backpressure = backpressure

-- The loop of `new`: the sources seen, whether one is enabled, and the states.
unfoldable pub scan_requests :
    (Source → Bool)
    → Bool
    → (Source → Option NativeCaptureSourceState)
    → List NativeCaptureSourceRequest
    → CoordinatorResult (Bool × (Source → Option NativeCaptureSourceState))
scan_requests seen enabled states [] = ok (enabled, states)
scan_requests seen enabled states (r ∷ rs) = do
  guard (not (seen r.source)) (duplicate_source r.source)
  scan_requests (insert r.source true seen) (enabled || r.enabled)
      (insert r.source (some source_requested) states) rs

unfoldable pub new : List NativeCaptureSourceRequest → CoordinatorResult NativeCaptureCoordinator
new requests = do
  guard (not (is_empty requests)) no_enabled_sources
  scanned ← scan_requests (λ _. false) false (λ _. none) requests
  guard scanned.0 no_enabled_sources
  ok (record {
    requested_sources = requests;
    phase = requested;
    source_states = scanned.1;
    started_sources = λ _. false;
    stopped_enabled_sources = λ _. false;
    committed_chunks = 0;
    selected_microphone_uid = none;
    last_recovery_generation = λ _. none;
  })
