-- ===== src/Capture/Coordinator/Diagram.antt =====
-- src-tauri/src/capture/coordinator.rs: every call follows the diagram of the phases.
use life_sub.Common.{
  ◌⊎◌, inl, inr, ◌≡◌, refl, ap, Bool, true, Option, none, some, List, [], ◌∷◌, String, Result, ok,
  err, arith, Bool-cases, Result-cases,
}
use life_sub.Capture.Protocol.Headers.{
  Source, CaptureHeader, ChunkSealed, hello, permission_state, source_started, microphone_devices,
  microphone_probe_result, audio_frame, level, chunk_sealed, source_interrupted,
  source_recovering as source_recovering_event, source_recovered,
  source_stopped as source_stopped_event, fatal_error, shutdown_ack,
}
use life_sub.Capture.Coordinator.{
  NativeCaptureCoordinator, NativeCapturePhase, NativeCaptureStableError,
  NativeCaptureTransportError, Step, requested, preflighted, running, paused, stopping, stopped,
  failed, enabled_sources, unsupported_source, transport_helper_exited,
  transport_protocol_violation, transport_backpressure, enter_failed,
}
use life_sub.Capture.Coordinator.Operations.{
  Reply, in_phase, preflight_each, preflight, start, pause, resume, stop, on_reply, any_recovering,
  is_requested, is_preflighted, is_running, is_paused, is_stopping, is_stoppable, is_drainable,
}
use life_sub.Capture.Coordinator.Events.{
  finish_if_stopped, on_chunk_sealed, on_source_interrupted, on_source_recovering,
  on_source_recovered, dispatch, handle_event, drain_once,
}
use life_sub.Capture.Coordinator.Phases.{
  Call, call_preflight, call_start, call_pause, call_resume, call_stop, call_handle_event,
  call_drain_once, run, PhaseStep, stay, preflights, starts, pauses, resumes, stops_running,
  stops_paused, finishes, fails_requested, fails_preflighted, fails_running, fails_paused,
  fails_stopping, in_phase-cases,
}

is_requested-eq : (p : NativeCapturePhase) → is_requested p ≡ true → p ≡ requested
is_requested-eq p h = ground arith

is_preflighted-eq : (p : NativeCapturePhase) → is_preflighted p ≡ true → p ≡ preflighted
is_preflighted-eq p h = ground arith

is_running-eq : (p : NativeCapturePhase) → is_running p ≡ true → p ≡ running
is_running-eq p h = ground arith

is_paused-eq : (p : NativeCapturePhase) → is_paused p ≡ true → p ≡ paused
is_paused-eq p h = ground arith

is_stopping-eq : (p : NativeCapturePhase) → is_stopping p ≡ true → p ≡ stopping
is_stopping-eq p h = ground arith

is_stoppable-eq : (p : NativeCapturePhase) → is_stoppable p ≡ true → (p ≡ running) ⊎ (p ≡ paused)
is_stoppable-eq p h = ground arith

from_to : {p p' q q' : NativeCapturePhase} → p ≡ p' → q ≡ q' → PhaseStep p' q' → PhaseStep p q
from_to e f step = rw (e, f) step

fails :
    (p : NativeCapturePhase) (e : NativeCaptureStableError)
    → is_drainable p ≡ true
    → PhaseStep p (failed e)
fails running e h = fails_running
fails paused e h = fails_paused
fails stopping e h = fails_stopping
fails requested e h = cc
fails preflighted e h = cc
fails stopped e h = cc
fails (failed x) e h = cc

preflight_each-phase :
    (reply : Source → Reply) (ss : List Source) (c : NativeCaptureCoordinator)
    → c.phase ≡ requested
    → PhaseStep requested ((preflight_each reply ss c).0.phase)
unfolding preflight_each enter_failed
preflight_each-phase reply [] c h = preflights
preflight_each-phase reply (s ∷ ss) c h = elim (Result-cases (reply s)) [
  | inl (a, e) ↦ rw (e, preflight_each) (preflight_each-phase reply ss _ h)
  | inr (unsupported_source s', e) ↦ rw (e, preflight_each) (from_to refl h stay)
  | inr (transport_helper_exited, e) ↦ rw (e, preflight_each) fails_requested
  | inr (transport_protocol_violation, e) ↦ rw (e, preflight_each) fails_requested
  | inr (transport_backpressure, e) ↦ rw (e, preflight_each) fails_requested
]

on_reply-phase :
    {A : Type 0} (reply : Reply) (c : NativeCaptureCoordinator) (body : Step A)
    → PhaseStep c.phase body.0.phase
    → ((e : NativeCaptureStableError) → PhaseStep c.phase (failed e))
    → PhaseStep c.phase ((on_reply reply c body).0.phase)
unfolding on_reply enter_failed
on_reply-phase (ok a) c body h f = h
on_reply-phase (err e) c body h f = f _

in_phase-phase :
    {A : Type 0} (allowed : NativeCapturePhase → Bool) (name : String)
    (c : NativeCaptureCoordinator) (body : Step A)
    → (allowed c.phase ≡ true → PhaseStep c.phase body.0.phase)
    → PhaseStep c.phase ((in_phase allowed name c body).0.phase)
in_phase-phase allowed name c body f = elim (in_phase-cases allowed name c body) [
  | inl (same, _) ↦ from_to refl (ap (λ x. x.phase) same) stay
  | inr (is_body, h) ↦ from_to refl (ap (λ x. x.0.phase) is_body) (f h)
]

-- What an event can do to the phase.
pub dispatch-phase :
    (commit : ChunkSealed → Result NativeCaptureStableError (Unit {0}))
    (event : Option CaptureHeader) (c : NativeCaptureCoordinator)
    → ((dispatch commit event c).0.phase ≡ c.phase)
      ⊎ ((e : NativeCaptureStableError) × ((dispatch commit event c).0.phase ≡ failed e))
      ⊎ (is_stopping c.phase ≡ true) × ((dispatch commit event c).0.phase ≡ stopped)
unfolding dispatch enter_failed finish_if_stopped on_chunk_sealed on_source_interrupted
    on_source_recovering on_source_recovered
dispatch-phase commit none c = ground arith
dispatch-phase commit (some (chunk_sealed sealed)) c = ground arith
dispatch-phase commit (some (source_stopped_event s)) c = ground arith
dispatch-phase commit (some (source_interrupted i)) c = ground arith
dispatch-phase commit (some (source_recovering_event r)) c = ground arith
dispatch-phase commit (some (source_recovered r)) c = ground arith
dispatch-phase commit (some (fatal_error e)) c = inr (inl (_, refl))
dispatch-phase commit (some shutdown_ack) c = ground arith
dispatch-phase commit (some (source_started s)) c = ground arith
dispatch-phase commit (some (microphone_devices _)) c = inr (inl (_, refl))
dispatch-phase commit (some (microphone_probe_result _)) c = inr (inl (_, refl))
dispatch-phase commit (some (hello _)) c = inl refl
dispatch-phase commit (some (permission_state _)) c = inl refl
dispatch-phase commit (some (audio_frame _)) c = inl refl
dispatch-phase commit (some (level _)) c = inl refl

dispatch_phase :
    (commit : ChunkSealed → Result NativeCaptureStableError (Unit {0}))
    (event : Option CaptureHeader) (c : NativeCaptureCoordinator)
    → is_drainable c.phase ≡ true
    → PhaseStep c.phase ((dispatch commit event c).0.phase)
dispatch_phase commit event c h = elim (dispatch-phase commit event c) [
  | inl same ↦ from_to refl same stay
  | inr (inl (e, f)) ↦ from_to refl f (fails c.phase e h)
  | inr (inr (is_stop, f)) ↦ from_to (is_stopping-eq c.phase is_stop) f finishes
]

drain-phase :
    (commit : ChunkSealed → Result NativeCaptureStableError (Unit {0}))
    (next : Result NativeCaptureTransportError (Option CaptureHeader))
    (c : NativeCaptureCoordinator)
    → PhaseStep c.phase ((drain_once commit next c).0.phase)
unfolding drain_once handle_event enter_failed
drain-phase commit (ok event) c =
    in_phase-phase _ _ c _ (λ h. in_phase-phase _ _ c _ (dispatch_phase commit event c))
drain-phase commit (err (unsupported_source s)) c = in_phase-phase _ _ c _ (λ h. stay)
drain-phase commit (err transport_helper_exited) c = in_phase-phase _ _ c _ (fails c.phase _)
drain-phase commit (err transport_protocol_violation) c = in_phase-phase _ _ c _ (fails c.phase _)
drain-phase commit (err transport_backpressure) c = in_phase-phase _ _ c _ (fails c.phase _)

-- Every call takes the phase along an arrow of the diagram `PhaseStep`, or leaves it as it is.
pub run_phase :
    (call : Call) (c : NativeCaptureCoordinator) → PhaseStep c.phase ((run call c).0.phase)
unfolding run preflight start pause resume stop handle_event
run_phase (call_preflight reply) c = in_phase-phase _ _ c _ (λ h.
    from_to (is_requested-eq c.phase h) refl
      (preflight_each-phase reply (enabled_sources c) c (is_requested-eq c.phase h)))
run_phase (call_start reply uid) c = in_phase-phase _ _ c _ (λ h.
    let e = is_preflighted-eq c.phase h in
    on_reply-phase (reply (enabled_sources c) uid) c _ (from_to e refl starts)
      (λ _. from_to e refl fails_preflighted))
run_phase (call_pause reply) c = in_phase-phase _ _ c _ (λ h.
    let e = is_running-eq c.phase h in
    elim (Bool-cases (any_recovering c)) [
      | inl some_recovering ↦ rw some_recovering stay
      | inr none_recovering ↦
          rw none_recovering
            (on_reply-phase reply c _ (from_to e refl pauses) (λ _. from_to e refl fails_running))
    ])
run_phase (call_resume reply) c = in_phase-phase _ _ c _ (λ h.
    let e = is_paused-eq c.phase h in
    on_reply-phase reply c _ (from_to e refl resumes) (λ _. from_to e refl fails_paused))
run_phase (call_stop reply) c = in_phase-phase _ _ c _ (λ h. elim (is_stoppable-eq c.phase h) [
  | inl e ↦
      on_reply-phase reply c _ (from_to e refl stops_running) (λ _. from_to e refl fails_running)
  | inr e ↦
      on_reply-phase reply c _ (from_to e refl stops_paused) (λ _. from_to e refl fails_paused)
])
run_phase (call_handle_event commit event) c =
    in_phase-phase _ _ c _ (dispatch_phase commit event c)
run_phase (call_drain_once commit next) c = drain-phase commit next c
