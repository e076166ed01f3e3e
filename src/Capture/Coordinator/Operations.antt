-- ===== src/Capture/Coordinator/Operations.antt =====
-- src-tauri/src/capture/coordinator.rs: `preflight`, `start`, `pause`, `resume` and `stop`, with all that each of
-- them changes.
use life_sub.Common.{
  Bool, true, false, ◌||◌, Option, none, some, List, [], ◌∷◌, String, Result, ok, err,
  if◌then◌else◌, any,
}
use life_sub.Capture.Protocol.Headers.{Source, microphone, system_audio, source_eq}
use life_sub.Capture.Coordinator.{
  NativeCaptureCoordinator, NativeCaptureTransportError, NativeCapturePhase, Step, insert,
  has_state, enabled_sources, enabled_started_sources, set_all, ensure_not_failed, enter_failed,
  transport_error_to_stable, unsupported_source, requested, preflighted, running, paused, stopping,
  source_preflighted, source_running, source_recovering, source_paused, source_stopping,
  invalid_state, preflight_rejected,
}

-- The reply of a transport to one request.
abbrev pub Reply : Type 0
Reply = Result NativeCaptureTransportError (Unit {0})

-- `self.ensure_not_failed()?`, then the test of the phase, before the rest of a method.
unfoldable pub in_phase :
    {A : Type 0} → (NativeCapturePhase → Bool) → String → NativeCaptureCoordinator → Step A → Step A
in_phase allowed name c body = elim (ensure_not_failed c) [
  | err e ↦ (c, err e)
  | ok _ ↦ if allowed c.phase then body else (c, err (invalid_state name))
]

abbrev pub is_requested : NativeCapturePhase → Bool
is_requested requested = true
is_requested _ = false

abbrev pub is_preflighted : NativeCapturePhase → Bool
is_preflighted preflighted = true
is_preflighted _ = false

abbrev pub is_running : NativeCapturePhase → Bool
is_running running = true
is_running _ = false

abbrev pub is_paused : NativeCapturePhase → Bool
is_paused paused = true
is_paused _ = false

abbrev pub is_stopping : NativeCapturePhase → Bool
is_stopping stopping = true
is_stopping _ = false

abbrev pub is_stoppable : NativeCapturePhase → Bool
is_stoppable p = is_running p || is_paused p

abbrev pub is_drainable : NativeCapturePhase → Bool
is_drainable p = is_running p || is_paused p || is_stopping p

-- The loop over the enabled sources; `reply s` is what `preflight_source` answers for `s`.
unfoldable pub preflight_each :
    (Source → Reply) → List Source → NativeCaptureCoordinator → Step (Unit {0})
preflight_each reply [] c = (record c { phase = preflighted }, ok tt)
preflight_each reply (s ∷ ss) c = elim (reply s) [
  | ok _ ↦
      preflight_each reply ss
        (record c { source_states = insert s (some source_preflighted) c.source_states })
  | err (unsupported_source s') ↦ (c, err (preflight_rejected s'))
  | err e ↦ enter_failed (transport_error_to_stable e) c
]

unfoldable pub preflight : (Source → Reply) → NativeCaptureCoordinator → Step (Unit {0})
preflight reply c = in_phase is_requested "preflight" c (preflight_each reply (enabled_sources c) c)

-- A request to the transport, and what follows when it is granted.
unfoldable pub on_reply : {A : Type 0} → Reply → NativeCaptureCoordinator → Step A → Step A
on_reply (err e) c body = enter_failed (transport_error_to_stable e) c
on_reply (ok _) c body = body

unfoldable pub start :
    (List Source → Option String → Reply)
    → Option String
    → NativeCaptureCoordinator
    → Step (Unit {0})
start reply microphone_device_uid c =
    let enabled = enabled_sources c in
    in_phase is_preflighted "start" c (
      on_reply (reply enabled microphone_device_uid) c (
        record c {
          selected_microphone_uid =
              if any (source_eq microphone) enabled then microphone_device_uid else none;
          last_recovery_generation = λ _. none;
          started_sources = set_all enabled true c.started_sources;
          source_states = set_all enabled (some source_running) c.source_states;
          phase = running;
        },
        ok tt,
      ))

-- `source_states.values().any(|state| *state == Recovering)`
unfoldable pub any_recovering : NativeCaptureCoordinator → Bool
any_recovering c =
    has_state source_recovering (c.source_states microphone)
    || has_state source_recovering (c.source_states system_audio)

unfoldable pub pause : Reply → NativeCaptureCoordinator → Step (Unit {0})
pause reply c = in_phase is_running "pause" c (
    if any_recovering c
    then (c, err (invalid_state "pause_recovering"))
    else on_reply reply c (
      record c {
        source_states = set_all (enabled_started_sources c) (some source_paused) c.source_states;
        phase = paused;
      },
      ok tt,
    ))

unfoldable pub resume : Reply → NativeCaptureCoordinator → Step (Unit {0})
resume reply c = in_phase is_paused "resume" c (
    on_reply reply c (
      record c {
        source_states = set_all (enabled_started_sources c) (some source_running) c.source_states;
        phase = running;
      },
      ok tt,
    ))

unfoldable pub stop : Reply → NativeCaptureCoordinator → Step (Unit {0})
stop reply c = in_phase is_stoppable "stop" c (
    on_reply reply c (
      record c {
        source_states = set_all (enabled_started_sources c) (some source_stopping) c.source_states;
        phase = stopping;
      },
      ok tt,
    ))
