-- ===== src/Capture/Coordinator/Tests.antt =====
-- src-tauri/src/capture/coordinator.rs: a capture of both sources, from its requests to its end.
use life_sub.Common.{◌≡◌, refl, ◌↔◌, true, false, none, some, List, [], ◌∷◌, ok, Result, any}
use life_sub.Capture.Protocol.Headers.{
  Source, microphone, system_audio, CaptureHeader, ChunkSealed, source_stopped, shutdown_ack,
}
use life_sub.Capture.Coordinator.{
  NativeCaptureCoordinator, NativeCaptureSourceRequest, NativeCaptureStableError, insert,
  source_requested, requested, stopping, stopped, complete, new, all_enabled_sources_stopped,
  scan_requests, ensure_not_failed, enabled_sources, enabled_started_sources,
}
use life_sub.Capture.Coordinator.Operations.{
  in_phase, stop, start, preflight, preflight_each, on_reply,
}
use life_sub.Capture.Coordinator.Events.{handle_event, dispatch, finish_if_stopped}
use life_sub.Capture.Coordinator.Phases.{
  Call, call_preflight, call_start, call_stop, call_handle_event, run, run_all, PhaseStep,
  run_terminal,
}
use life_sub.Capture.Coordinator.Diagram.{run_phase}
use life_sub.Capture.Coordinator.Draining.{looks_for_end, handle_event_complete}
use life_sub.Capture.Coordinator.Reports.{reports_stop}
use life_sub.Capture.Coordinator.Ended.{stopped_after_reports}

abbrev both : List NativeCaptureSourceRequest
both =
    record { source = microphone; enabled = true }
    ∷ record { source = system_audio; enabled = true }
    ∷ []

abbrev fresh : NativeCaptureCoordinator
fresh = record {
  requested_sources = both;
  phase = requested;
  source_states =
      insert system_audio (some source_requested)
        (insert microphone (some source_requested) (λ _. none));
  started_sources = λ _. false;
  stopped_enabled_sources = λ _. false;
  committed_chunks = 0;
  selected_microphone_uid = none;
  last_recovery_generation = λ _. none;
}

abbrev accepts : ChunkSealed → Result NativeCaptureStableError (Unit {0})
accepts _ = ok tt

abbrev stop_of : Source → CaptureHeader
stop_of s =
    source_stopped
      (record { source = s; final_sequence = 5; start_host_time = 1; end_host_time = 9 })

abbrev whole_capture : List Call
whole_capture =
    call_preflight (λ _. ok tt)
    ∷ call_start (λ _ _. ok tt) (some "mic")
    ∷ call_stop (ok tt)
    ∷ call_handle_event accepts (some (stop_of microphone))
    ∷ call_handle_event accepts (some (stop_of system_audio))
    ∷ call_handle_event accepts none
    ∷ []

stopped_after_reports_example : any (reports_stop system_audio) whole_capture ≡ true
unfolding new scan_requests run_all run handle_event in_phase ensure_not_failed stop start preflight
    preflight_each enabled_sources on_reply dispatch finish_if_stopped all_enabled_sources_stopped
    enabled_started_sources
stopped_after_reports_example =
    stopped_after_reports both fresh whole_capture system_audio refl refl refl

-- A coordinator that waits for the end.
abbrev ending : NativeCaptureCoordinator
ending = record fresh { phase = stopping; stopped_enabled_sources = λ _. true }

abbrev ended : NativeCaptureCoordinator
ended = record ending { phase = stopped }

handle_event_complete_example : ((handle_event accepts none ending).1 ≡ ok complete) ↔ (
    (ending.phase ≡ stopping)
    × (all_enabled_sources_stopped ending ≡ true)
    × (looks_for_end accepts none ≡ true))
handle_event_complete_example = handle_event_complete accepts none ending

run_phase_example :
    PhaseStep ending.phase ((run (call_handle_event accepts (some shutdown_ack)) ending).0.phase)
run_phase_example = run_phase (call_handle_event accepts (some shutdown_ack)) ending

run_terminal_example : run (call_handle_event accepts (some shutdown_ack)) ended ≡ (ended, false)
run_terminal_example = run_terminal (call_handle_event accepts (some shutdown_ack)) ended refl
