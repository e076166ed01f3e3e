-- ===== src/Capture/Coordinator/Draining.antt =====
-- src-tauri/src/capture/coordinator.rs: when a capture completes, and what has been reported by then.
use life_sub.Common.{
  ◌≡◌, ◌↔◌, Bool, true, false, ◌&&◌, Option, none, some, Result, ok, is_ok, arith,
}
use life_sub.Capture.Protocol.Headers.{
  CaptureHeader, ChunkSealed, hello, permission_state, source_started, microphone_devices,
  microphone_probe_result, audio_frame, level, chunk_sealed, source_interrupted,
  source_recovering as source_recovering_event, source_recovered,
  source_stopped as source_stopped_event, fatal_error, shutdown_ack,
}
use life_sub.Capture.Coordinator.{
  NativeCaptureCoordinator, NativeCaptureStableError, NativeCaptureDrainOutcome, complete,
  CoordinatorResult, stopping, enabled_sources, all_enabled_sources_stopped, ensure_not_failed,
  enter_failed,
}
use life_sub.Capture.Coordinator.Operations.{in_phase, is_stopping}
use life_sub.Capture.Coordinator.Events.{
  finish_if_stopped, on_chunk_sealed, on_source_interrupted, on_source_recovering,
  on_source_recovered, dispatch, handle_event,
}

-- The events after which `handle_event` looks whether the capture is over.
abbrev pub looks_for_end :
    (ChunkSealed → Result NativeCaptureStableError (Unit {0})) → Option CaptureHeader → Bool
looks_for_end commit none = true
looks_for_end commit (some (chunk_sealed sealed)) = is_ok (commit sealed)
looks_for_end commit (some shutdown_ack) = true
looks_for_end commit (some _) = false

abbrev is_complete : CoordinatorResult NativeCaptureDrainOutcome → Bool
is_complete (ok complete) = true
is_complete _ = false

complete_iff :
    (r : CoordinatorResult NativeCaptureDrainOutcome) → (r ≡ ok complete) ↔ (is_complete r ≡ true)
complete_iff r = ground arith

dispatch-is_complete :
    (commit : ChunkSealed → Result NativeCaptureStableError (Unit {0}))
    (event : Option CaptureHeader) (c : NativeCaptureCoordinator)
    → is_complete ((dispatch commit event c).1)
      ≡ (is_stopping c.phase && all_enabled_sources_stopped c && looks_for_end commit event)
unfolding dispatch enter_failed finish_if_stopped on_chunk_sealed on_source_interrupted
    on_source_recovering on_source_recovered all_enabled_sources_stopped enabled_sources
dispatch-is_complete commit none c = ground arith
dispatch-is_complete commit (some (chunk_sealed sealed)) c = ground arith
dispatch-is_complete commit (some (source_stopped_event s)) c = ground arith
dispatch-is_complete commit (some (source_interrupted i)) c = ground arith
dispatch-is_complete commit (some (source_recovering_event r)) c = ground arith
dispatch-is_complete commit (some (source_recovered r)) c = ground arith
dispatch-is_complete commit (some (fatal_error e)) c = ground arith
dispatch-is_complete commit (some shutdown_ack) c = ground arith
dispatch-is_complete commit (some (source_started s)) c = ground arith
dispatch-is_complete commit (some (microphone_devices _)) c = ground arith
dispatch-is_complete commit (some (microphone_probe_result _)) c = ground arith
dispatch-is_complete commit (some (hello _)) c = ground arith
dispatch-is_complete commit (some (permission_state _)) c = ground arith
dispatch-is_complete commit (some (audio_frame _)) c = ground arith
dispatch-is_complete commit (some (level _)) c = ground arith

-- `handle_event` reports the end of a capture exactly when the phase is `stopping`, every enabled source is
-- in the set of stopped sources, and the event is a timeout, a shutdown acknowledgement, or a sealed chunk
-- that the committer accepts.
pub handle_event_complete :
    (commit : ChunkSealed → Result NativeCaptureStableError (Unit {0}))
    (event : Option CaptureHeader) (c : NativeCaptureCoordinator)
    → ((handle_event commit event c).1 ≡ ok complete) ↔ (
        (c.phase ≡ stopping)
        × (all_enabled_sources_stopped c ≡ true)
        × (looks_for_end commit event ≡ true))
unfolding handle_event in_phase ensure_not_failed
handle_event_complete commit event c =
    grind (arith, complete_iff ((dispatch commit event c).1), dispatch-is_complete commit event c)
