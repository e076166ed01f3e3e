-- ===== src/Capture/Session/Calls.antt =====
-- src-tauri/src/capture/session.rs: what every call of the coordinator keeps, every round of the worker keeps.
use life_sub.Common.{
  ℕ, ◌≡◌, refl, sym, subst, inl, inr, Bool, true, false, Option, none, some, List, [], ◌∷◌, String,
  Result, ok, err, arith, Bool-cases, All,
}
use life_sub.Capture.Protocol.Headers.{
  Source, CaptureHeader, ChunkSealed, hello, permission_state, source_started, microphone_devices,
  microphone_probe_result, audio_frame, level, chunk_sealed, source_interrupted, source_recovering,
  source_recovered, source_stopped, fatal_error, shutdown_ack, SourceStarted,
}
use life_sub.Capture.Coordinator.{
  NativeCaptureCoordinator, insert, CoordinatorResult, NativeCaptureTransportError,
  NativeCaptureStableError, NativeCaptureDrainOutcome,
}
use life_sub.Capture.Coordinator.Phases.{
  Call, call_pause, call_resume, call_stop, call_handle_event, run,
}
use life_sub.Capture.Session.{
  NativeCaptureSessionError, session_protocol_violation, from_coordinator_error,
}
use life_sub.Capture.Session.Worker.{
  NativeCaptureWorker, ControlMessage, control_pause, control_resume, control_stop, Round, Turn,
  continues, returns, worker_of, then_do, handle_control, handle_controls, fail_with, has_committer,
}
use life_sub.Capture.Session.Rounds.{
  make_committer, on_started, before_event, commit_with, after_event, on_event, settle_event,
  take_event, round, run_rounds,
}

-- The parts of a round that the coordinator has no share in.
make_committer-coordinator :
    (session_id : String) (r : Round) (w : NativeCaptureWorker)
    → (worker_of (make_committer session_id r w)).coordinator ≡ w.coordinator
unfolding make_committer
make_committer-coordinator session_id r w = ground arith

fail_with-coordinator :
    (e : NativeCaptureSessionError) (w : NativeCaptureWorker)
    → (worker_of (fail_with e w)).coordinator ≡ w.coordinator
unfolding fail_with
fail_with-coordinator e w = ground arith

after_event-coordinator :
    (r : Round) (outcome : NativeCaptureDrainOutcome) (w : NativeCaptureWorker)
    → (worker_of (after_event r outcome w)).coordinator ≡ w.coordinator
unfolding after_event
after_event-coordinator r outcome w = ground arith

module _ (session_id : String) (enabled : List Source) (uid : Option String) where
  on_started-coordinator :
      (r : Round) (started : SourceStarted) (w : NativeCaptureWorker)
      → (worker_of (on_started session_id enabled uid r started w)).coordinator ≡ w.coordinator
  unfolding on_started fail_with
  on_started-coordinator r started w = ground (
    arith,
    make_committer-coordinator session_id r
        (record w { started_sources = insert started.source (some started) w.started_sources }),
  )

  -- What holds of every way in which the worker can treat an event, holds of `before_event`.
  pub before_event-by :
      (Q : Turn → Type 0) (r : Round) (event : Option CaptureHeader) (w : NativeCaptureWorker)
      → ((started : SourceStarted) → Q (on_started session_id enabled uid r started w))
      → Q (continues w)
      → ((e : NativeCaptureSessionError) → Q (fail_with e w))
      → Q (continues (record w { shutdown_ack = true }))
      → Q (before_event session_id enabled uid r event w)
  unfolding before_event
  before_event-by Q r none w started same failed acked = same
  before_event-by Q r (some (source_started s)) w started same failed acked = started s
  before_event-by Q r (some (chunk_sealed _)) w started same failed acked =
      elim (Bool-cases (has_committer w)) [
        | inl e ↦ rw e same
        | inr e ↦ rw e (failed session_protocol_violation)
      ]
  before_event-by Q r (some shutdown_ack) w started same failed acked = acked
  before_event-by Q r (some (hello _)) w started same failed acked = same
  before_event-by Q r (some (permission_state _)) w started same failed acked = same
  before_event-by Q r (some (microphone_devices _)) w started same failed acked = same
  before_event-by Q r (some (microphone_probe_result _)) w started same failed acked = same
  before_event-by Q r (some (audio_frame _)) w started same failed acked = same
  before_event-by Q r (some (level _)) w started same failed acked = same
  before_event-by Q r (some (source_interrupted _)) w started same failed acked = same
  before_event-by Q r (some (source_recovering _)) w started same failed acked = same
  before_event-by Q r (some (source_recovered _)) w started same failed acked = same
  before_event-by Q r (some (source_stopped _)) w started same failed acked = same
  before_event-by Q r (some (fatal_error _)) w started same failed acked = same

  pub before_event-coordinator :
      (r : Round) (event : Option CaptureHeader) (w : NativeCaptureWorker)
      → (worker_of (before_event session_id enabled uid r event w)).coordinator ≡ w.coordinator
  before_event-coordinator r event w =
      before_event-by (λ turn. (worker_of turn).coordinator ≡ w.coordinator) r event w
        (λ started. on_started-coordinator r started w) refl (λ e. fail_with-coordinator e w) refl

abbrev pub is_control : Call → Bool
is_control (call_pause reply) = true
is_control (call_resume reply) = true
is_control (call_stop reply) = true
is_control _ = false

-- Whether every call that hands an event over is allowed.
abbrev AllowsEvent : (Call → Bool) → Option CaptureHeader → Type 0
AllowsEvent allowed event =
    (commit : ChunkSealed → Result NativeCaptureStableError (Unit {0}))
    → allowed (call_handle_event commit event) ≡ true

abbrev pub AllowsRound : (Call → Bool) → Round → Type 0
AllowsRound allowed r =
    (event : Option CaptureHeader) → r.next ≡ ok event → AllowsEvent allowed event

-- A predicate on coordinators that every allowed call keeps, and a round whose calls are allowed.
module _ (P : NativeCaptureCoordinator → Type 0) (allowed : Call → Bool)
    (allows_control : (call : Call) → is_control call ≡ true → allowed call ≡ true)
    (kept : (call : Call) (c : NativeCaptureCoordinator)
      → allowed call ≡ true
      → P c
      → P ((run call c).0))
    (session_id : String) (enabled : List Source) (uid : Option String)
    (add_milliseconds : ℕ → ℕ → ℕ) where
  control-kept :
      (m : ControlMessage) (w : NativeCaptureWorker)
      → P w.coordinator
      → P ((handle_control m w).coordinator)
  unfolding handle_control run
  control-kept (control_pause reply) w p =
      kept (call_pause reply) w.coordinator (allows_control _ refl) p
  control-kept (control_resume reply) w p =
      kept (call_resume reply) w.coordinator (allows_control _ refl) p
  control-kept (control_stop reply) w p =
      kept (call_stop reply) w.coordinator (allows_control _ refl) p

  pub controls-kept :
      (ms : List ControlMessage) (w : NativeCaptureWorker)
      → P w.coordinator
      → P ((handle_controls ms w).coordinator)
  unfolding handle_controls
  controls-kept [] w p = p
  controls-kept (m ∷ ms) w p = controls-kept ms (handle_control m w) (control-kept m w p)

  settle_event-kept :
      (r : Round) (w : NativeCaptureWorker) (outcome : CoordinatorResult NativeCaptureDrainOutcome)
      → P w.coordinator
      → P ((worker_of (settle_event r w outcome)).coordinator)
  unfolding settle_event
  settle_event-kept r w (err e) p =
      subst P (sym (fail_with-coordinator (from_coordinator_error e) w)) p
  settle_event-kept r w (ok outcome) p = subst P (sym (after_event-coordinator r outcome w)) p

  on_event-kept :
      (r : Round) (event : Option CaptureHeader) (w : NativeCaptureWorker)
      → AllowsEvent allowed event
      → P w.coordinator
      → P ((worker_of (on_event add_milliseconds r event w)).coordinator)
  unfolding on_event run
  on_event-kept r event w allows p =
      let call = call_handle_event (commit_with add_milliseconds r w.committer) event in
      settle_event-kept r _ _ (kept call w.coordinator (allows _) p)

  then_do-kept :
      (turn : Turn) (next : NativeCaptureWorker → Turn)
      → P ((worker_of turn).coordinator)
      → ((w : NativeCaptureWorker) → P w.coordinator → P ((worker_of (next w)).coordinator))
      → P ((worker_of (then_do turn next)).coordinator)
  then_do-kept (continues w) next p f = f w p
  then_do-kept (returns w result) next p f = p

  take_event-kept :
      (r : Round) (next : Result NativeCaptureTransportError (Option CaptureHeader))
      (w : NativeCaptureWorker)
      → ((event : Option CaptureHeader) → next ≡ ok event → AllowsEvent allowed event)
      → P w.coordinator
      → P ((worker_of (take_event session_id enabled uid add_milliseconds r next w)).coordinator)
  unfolding take_event
  take_event-kept r (err e) w allows p = subst P (sym (fail_with-coordinator _ w)) p
  take_event-kept r (ok event) w allows p =
      then_do-kept (before_event session_id enabled uid r event w)
        (on_event add_milliseconds r event)
        (subst P (sym (before_event-coordinator session_id enabled uid r event w)) p)
        (λ w'. on_event-kept r event w' (allows event refl))

  pub round-kept :
      (r : Round) (w : NativeCaptureWorker)
      → AllowsRound allowed r
      → P w.coordinator
      → P ((worker_of (round session_id enabled uid add_milliseconds r w)).coordinator)
  unfolding round
  round-kept r w allows p = take_event-kept r r.next _ allows (controls-kept r.controls w p)

  pub run_rounds-kept :
      (rs : List Round) (w : NativeCaptureWorker)
      → All (AllowsRound allowed) rs
      → P w.coordinator
      → P ((worker_of (run_rounds session_id enabled uid add_milliseconds rs w)).coordinator)
  unfolding run_rounds
  run_rounds-kept [] w allows p = p
  run_rounds-kept (r ∷ rs) w (allows, rest) p =
      then_do-kept (round session_id enabled uid add_milliseconds r w) _ (round-kept r w allows p)
        (λ w'. run_rounds-kept rs w' rest)
