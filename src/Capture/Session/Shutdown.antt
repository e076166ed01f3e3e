-- ===== src/Capture/Session/Shutdown.antt =====
-- src-tauri/src/capture/session.rs: the request to shut down, and the two ways in which the worker ends after it.
use life_sub.Common.{
  ℕ, ◌≡◌, refl, ap, subst, ◌∙◌, inl, inr, Bool, true, false, not, ◌&&◌, ◌||◌, Option, none, some,
  List, [], ◌∷◌, String, Result, ok, err, arith, Bool-cases,
}
use life_sub.Capture.Protocol.Headers.{
  Source, CaptureHeader, ChunkSealed, hello, permission_state, source_started, microphone_devices,
  microphone_probe_result, audio_frame, level, chunk_sealed, source_interrupted, source_recovering,
  source_recovered, source_stopped, fatal_error, shutdown_ack, SourceStarted,
}
use life_sub.Capture.Coordinator.{
  NativeCaptureCoordinator, NativeCaptureStableError, NativeCaptureTransportError,
  NativeCaptureDrainOutcome, CoordinatorResult, insert, ensure_not_failed, enter_failed,
}
use life_sub.Capture.Coordinator.Operations.{in_phase}
use life_sub.Capture.Coordinator.Events.{
  dispatch, handle_event, finish_if_stopped, on_chunk_sealed, on_source_interrupted,
  on_source_recovering, on_source_recovered,
}
use life_sub.Capture.Coordinator.Phases.{is_terminal}
use life_sub.Capture.Coordinator.Ended.{in_stopped_phase}
use life_sub.Capture.Session.Worker.{
  NativeCaptureWorker, ControlMessage, control_pause, control_resume, control_stop, Round, Turn,
  continues, returns, then_do, handle_controls, fail_with, handle_control,
}
use life_sub.Capture.Session.Rounds.{
  make_committer, on_started, before_event, is_complete, after_event, on_event, settle_event,
  take_event, round, run_rounds, fresh_worker,
}
use life_sub.Capture.Session.Calls.{before_event-by}
use life_sub.Capture.Session.Ends.{has_failed, round-fails}

-- A worker that goes on and has asked for the shutdown has a stopped coordinator.
abbrev settled : NativeCaptureWorker → Bool
settled w = not w.shutdown_sent || is_terminal w.coordinator.phase

abbrev pub at_end : NativeCaptureWorker → Bool
at_end w =
    w.shutdown_sent && w.shutdown_ack && w.stop_requested && in_stopped_phase w.coordinator.phase

abbrev pub is_sound : Turn → Bool
is_sound (continues w) = settled w
is_sound (returns w (ok _)) = at_end w
is_sound (returns w (err _)) = true

dispatch_stops :
    (commit : ChunkSealed → Result NativeCaptureStableError (Unit {0}))
    (event : Option CaptureHeader) (c : NativeCaptureCoordinator)
    (outcome : NativeCaptureDrainOutcome)
    → (dispatch commit event c).1 ≡ ok outcome
    → is_complete outcome ≡ true
    → in_stopped_phase ((dispatch commit event c).0).phase ≡ true
unfolding dispatch enter_failed finish_if_stopped on_chunk_sealed on_source_interrupted
    on_source_recovering on_source_recovered
dispatch_stops commit none c outcome h k = ground arith
dispatch_stops commit (some (chunk_sealed sealed)) c outcome h k = ground arith
dispatch_stops commit (some (source_stopped s)) c outcome h k = ground arith
dispatch_stops commit (some (source_interrupted i)) c outcome h k = ground arith
dispatch_stops commit (some (source_recovering r)) c outcome h k = ground arith
dispatch_stops commit (some (source_recovered r)) c outcome h k = ground arith
dispatch_stops commit (some (fatal_error e)) c outcome h k = ground arith
dispatch_stops commit (some shutdown_ack) c outcome h k = ground arith
dispatch_stops commit (some (source_started s)) c outcome h k = ground arith
dispatch_stops commit (some (microphone_devices _)) c outcome h k = ground arith
dispatch_stops commit (some (microphone_probe_result _)) c outcome h k = ground arith
dispatch_stops commit (some (hello _)) c outcome h k = ground arith
dispatch_stops commit (some (permission_state _)) c outcome h k = ground arith
dispatch_stops commit (some (audio_frame _)) c outcome h k = ground arith
dispatch_stops commit (some (level _)) c outcome h k = ground arith

handle_event_stops :
    (commit : ChunkSealed → Result NativeCaptureStableError (Unit {0}))
    (event : Option CaptureHeader) (c : NativeCaptureCoordinator)
    (outcome : NativeCaptureDrainOutcome)
    → (handle_event commit event c).1 ≡ ok outcome
    → is_complete outcome ≡ true
    → in_stopped_phase ((handle_event commit event c).0).phase ≡ true
unfolding handle_event in_phase ensure_not_failed
handle_event_stops commit event c outcome h k =
    ground (arith, dispatch_stops commit event c outcome)

after_event-is_sound :
    (r : Round) (outcome : NativeCaptureDrainOutcome) (w : NativeCaptureWorker)
    → w.shutdown_sent ≡ false
    → (is_complete outcome ≡ true → in_stopped_phase w.coordinator.phase ≡ true)
    → is_sound (after_event r outcome w) ≡ true
unfolding after_event
after_event-is_sound r outcome w h k = ground arith

settle_event-is_sound :
    (r : Round) (w : NativeCaptureWorker) (outcome : CoordinatorResult NativeCaptureDrainOutcome)
    → w.shutdown_sent ≡ false
    → ((o : NativeCaptureDrainOutcome)
        → outcome ≡ ok o
        → is_complete o ≡ true
        → in_stopped_phase w.coordinator.phase ≡ true)
    → is_sound (settle_event r w outcome) ≡ true
unfolding settle_event fail_with
settle_event-is_sound r w (err e) h k = refl
settle_event-is_sound r w (ok outcome) h k = after_event-is_sound r outcome w h (k outcome refl)

control-shutdown :
    (m : ControlMessage) (w : NativeCaptureWorker)
    → (handle_control m w).shutdown_sent ≡ w.shutdown_sent
unfolding handle_control
control-shutdown (control_pause reply) w = refl
control-shutdown (control_resume reply) w = refl
control-shutdown (control_stop reply) w = refl

controls-shutdown :
    (ms : List ControlMessage) (w : NativeCaptureWorker)
    → (handle_controls ms w).shutdown_sent ≡ w.shutdown_sent
unfolding handle_controls
controls-shutdown [] w = refl
controls-shutdown (m ∷ ms) w = controls-shutdown ms (handle_control m w) ∙ control-shutdown m w

-- The worker is neither ended well nor has it asked for the shutdown.
abbrev is_open : Turn → Bool
is_open (continues w) = not w.shutdown_sent
is_open (returns w (ok _)) = false
is_open (returns w (err _)) = true

make_committer-is_open :
    (session_id : String) (r : Round) (w : NativeCaptureWorker)
    → w.shutdown_sent ≡ false
    → is_open (make_committer session_id r w) ≡ true
unfolding make_committer
make_committer-is_open session_id r w h = ground arith

module _ (session_id : String) (enabled : List Source) (uid : Option String) where
  on_started-is_open :
      (r : Round) (started : SourceStarted) (w : NativeCaptureWorker)
      → w.shutdown_sent ≡ false
      → is_open (on_started session_id enabled uid r started w) ≡ true
  unfolding on_started fail_with
  on_started-is_open r started w h = ground (
    arith,
    make_committer-is_open session_id r
        (record w { started_sources = insert started.source (some started) w.started_sources }),
  )

  before_event-is_open :
      (r : Round) (event : Option CaptureHeader) (w : NativeCaptureWorker)
      → w.shutdown_sent ≡ false
      → is_open (before_event session_id enabled uid r event w) ≡ true
  unfolding fail_with
  before_event-is_open r event w h =
      before_event-by session_id enabled uid (λ turn. is_open turn ≡ true) r event w
        (λ started. on_started-is_open r started w h) (ap not h) (λ e. refl) (ap not h)

  module _ (add_milliseconds : ℕ → ℕ → ℕ) where
    then_do-is_sound :
        (r : Round) (event : Option CaptureHeader) (turn : Turn)
        → is_open turn ≡ true
        → is_sound (then_do turn (on_event add_milliseconds r event)) ≡ true
    unfolding on_event
    then_do-is_sound r event (continues w) h =
        settle_event-is_sound r _ _ (ground arith)
          (λ outcome made is. handle_event_stops _ event w.coordinator outcome made is)
    then_do-is_sound r event (returns w (err e)) h = refl
    then_do-is_sound r event (returns w (ok _)) h = cc

    take_event-is_sound :
        (r : Round) (next : Result NativeCaptureTransportError (Option CaptureHeader))
        (w : NativeCaptureWorker)
        → w.shutdown_sent ≡ false
        → is_sound (take_event session_id enabled uid add_milliseconds r next w) ≡ true
    unfolding take_event fail_with
    take_event-is_sound r (err e) w h = refl
    take_event-is_sound r (ok event) w h =
        then_do-is_sound r event (before_event session_id enabled uid r event w)
          (before_event-is_open r event w h)

    failed-is_sound : (turn : Turn) → has_failed turn ≡ true → is_sound turn ≡ true
    failed-is_sound turn h = ground arith

    round-is_sound :
        (r : Round) (w : NativeCaptureWorker)
        → settled w ≡ true
        → is_sound (round session_id enabled uid add_milliseconds r w) ≡ true
    unfolding round
    round-is_sound r w h = elim (Bool-cases w.shutdown_sent) [
      | inl sent ↦
          failed-is_sound _ (round-fails session_id enabled uid add_milliseconds r w (ground arith))
      | inr not_sent ↦
          take_event-is_sound r r.next (handle_controls r.controls w)
            (controls-shutdown r.controls w ∙ not_sent)
    ]

    rest-is_sound :
        (turn : Turn) (next : NativeCaptureWorker → Turn)
        → is_sound turn ≡ true
        → ((w : NativeCaptureWorker) → settled w ≡ true → is_sound (next w) ≡ true)
        → is_sound (then_do turn next) ≡ true
    rest-is_sound (continues w) next h f = f w h
    rest-is_sound (returns w (ok _)) next h f = h
    rest-is_sound (returns w (err _)) next h f = refl

    pub run_rounds-is_sound :
        (rs : List Round) (w : NativeCaptureWorker)
        → settled w ≡ true
        → is_sound (run_rounds session_id enabled uid add_milliseconds rs w) ≡ true
    unfolding run_rounds
    run_rounds-is_sound [] w h = h
    run_rounds-is_sound (r ∷ rs) w h =
        rest-is_sound (round session_id enabled uid add_milliseconds r w) _ (round-is_sound r w h)
          (run_rounds-is_sound rs)

    -- When a worker that has begun with no request to shut down goes on after some rounds, having asked the
    -- transport for the shutdown, then its next round returns an error, whatever the answers are.
    pub ends_after_shutdown :
        (rs : List Round) (c : NativeCaptureCoordinator) (w : NativeCaptureWorker) (r : Round)
        → run_rounds session_id enabled uid add_milliseconds rs (fresh_worker c) ≡ continues w
        → w.shutdown_sent ≡ true
        → has_failed (round session_id enabled uid add_milliseconds r w) ≡ true
    ends_after_shutdown rs c w r reached sent =
        let sound =
          subst (λ turn. is_sound turn ≡ true) reached
            (run_rounds-is_sound rs (fresh_worker c) refl) in
        round-fails session_id enabled uid add_milliseconds r w (ground arith)
