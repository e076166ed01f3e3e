-- ===== src/Capture/Coordinator/Phases.antt =====
-- src-tauri/src/capture/coordinator.rs: the phases that a coordinator goes through, and what holds of
-- every coordinator that a sequence of calls reaches.
use life_sub.Common.{
  ◌⊎◌, ◌≡◌, refl, Bool, true, false, Option, List, [], ◌∷◌, String, Result, is_ok, arith,
}
use life_sub.Capture.Protocol.Headers.{Source, CaptureHeader, ChunkSealed}
use life_sub.Capture.Coordinator.{
  NativeCaptureCoordinator, NativeCapturePhase, NativeCaptureStableError,
  NativeCaptureTransportError, Step, requested, preflighted, running, paused, stopping, stopped,
  failed, ensure_not_failed,
}
use life_sub.Capture.Coordinator.Operations.{Reply, in_phase, preflight, start, pause, resume, stop}
use life_sub.Capture.Coordinator.Events.{handle_event, drain_once}

-- A call of the coordinator, with what the transport and the committer answer.
pub data Call : Type 0 where
  call_preflight : (Source → Reply) → Call
  call_start : (List Source → Option String → Reply) → Option String → Call
  call_pause : Reply → Call
  call_resume : Reply → Call
  call_stop : Reply → Call
  call_handle_event :
      (ChunkSealed → Result NativeCaptureStableError (Unit {0})) → Option CaptureHeader → Call
  call_drain_once :
      (ChunkSealed → Result NativeCaptureStableError (Unit {0}))
      → Result NativeCaptureTransportError (Option CaptureHeader)
      → Call

abbrev outcome : {A : Type 0} → Step A → NativeCaptureCoordinator × Bool
outcome s = (s.0, is_ok s.1)

-- The coordinator after the call, and whether the call succeeded.
unfoldable pub run : Call → NativeCaptureCoordinator → NativeCaptureCoordinator × Bool
run (call_preflight reply) c = outcome (preflight reply c)
run (call_start reply uid) c = outcome (start reply uid c)
run (call_pause reply) c = outcome (pause reply c)
run (call_resume reply) c = outcome (resume reply c)
run (call_stop reply) c = outcome (stop reply c)
run (call_handle_event commit event) c = outcome (handle_event commit event c)
run (call_drain_once commit next) c = outcome (drain_once commit next c)

unfoldable pub run_all : List Call → NativeCaptureCoordinator → NativeCaptureCoordinator
run_all [] c = c
run_all (call ∷ calls) c = run_all calls ((run call c).0)

-- The diagram of the phases.
pub data PhaseStep : NativeCapturePhase → NativeCapturePhase → Type 0 where
  stay : {p : NativeCapturePhase} → PhaseStep p p
  preflights : PhaseStep requested preflighted
  starts : PhaseStep preflighted running
  pauses : PhaseStep running paused
  resumes : PhaseStep paused running
  stops_running : PhaseStep running stopping
  stops_paused : PhaseStep paused stopping
  finishes : PhaseStep stopping stopped
  fails_requested : {e : NativeCaptureStableError} → PhaseStep requested (failed e)
  fails_preflighted : {e : NativeCaptureStableError} → PhaseStep preflighted (failed e)
  fails_running : {e : NativeCaptureStableError} → PhaseStep running (failed e)
  fails_paused : {e : NativeCaptureStableError} → PhaseStep paused (failed e)
  fails_stopping : {e : NativeCaptureStableError} → PhaseStep stopping (failed e)

abbrev pub is_terminal : NativeCapturePhase → Bool
is_terminal stopped = true
is_terminal (failed e) = true
is_terminal _ = false

in_phase_terminal :
    {A : Type 0} (allowed : NativeCapturePhase → Bool) (name : String)
    (c : NativeCaptureCoordinator) (body : Step A)
    → is_terminal c.phase ≡ true
    → allowed stopped ≡ false
    → outcome (in_phase allowed name c body) ≡ (c, false)
unfolding in_phase ensure_not_failed
in_phase_terminal allowed name c body h k = grind arith

-- A coordinator whose phase is `stopped` or `failed` is left as it is by every call, and every call of it
-- returns an error.
pub run_terminal :
    (call : Call) (c : NativeCaptureCoordinator)
    → is_terminal c.phase ≡ true
    → run call c ≡ (c, false)
unfolding run preflight start pause resume stop handle_event drain_once
run_terminal (call_preflight reply) c h = in_phase_terminal _ _ c _ h refl
run_terminal (call_start reply uid) c h = in_phase_terminal _ _ c _ h refl
run_terminal (call_pause reply) c h = in_phase_terminal _ _ c _ h refl
run_terminal (call_resume reply) c h = in_phase_terminal _ _ c _ h refl
run_terminal (call_stop reply) c h = in_phase_terminal _ _ c _ h refl
run_terminal (call_handle_event commit event) c h = in_phase_terminal _ _ c _ h refl
run_terminal (call_drain_once commit next) c h = in_phase_terminal _ _ c _ h refl

-- A call of `in_phase` leaves the coordinator as it is, or is its body in an allowed phase.
pub in_phase-cases :
    {A : Type 0} (allowed : NativeCapturePhase → Bool) (name : String)
    (c : NativeCaptureCoordinator) (body : Step A)
    → ((in_phase allowed name c body).0 ≡ c) × (is_ok ((in_phase allowed name c body).1) ≡ false)
      ⊎ (in_phase allowed name c body ≡ body) × (allowed c.phase ≡ true)
unfolding in_phase ensure_not_failed
in_phase-cases allowed name c body = ground arith
