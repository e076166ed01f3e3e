-- ===== src/Capture/Coordinator/Events.antt =====
-- src-tauri/src/capture/coordinator.rs: `drain_once` and `handle_event`, with all that each event changes.
use life_sub.Common.{
  ℕ, suc, Bool, true, not, ◌&&◌, ◌||◌, Option, none, some, Result, ok, err, ltb, ◌==◌,
  if◌then◌else◌, any, is_some_and, str_eq,
}
use life_sub.Capture.Protocol.Headers.{
  microphone, source_eq, CaptureHeader, hello, permission_state, source_started, microphone_devices,
  microphone_probe_result, audio_frame, level, chunk_sealed, source_interrupted,
  source_recovering as source_recovering_event, source_recovered,
  source_stopped as source_stopped_event, fatal_error, shutdown_ack, ChunkSealed, SourceInterrupted,
  SourceRecovering, SourceRecovered,
}
use life_sub.Capture.Coordinator.{
  NativeCaptureCoordinator, NativeCaptureStableError, NativeCaptureTransportError,
  NativeCaptureDrainOutcome, Step, insert, has_state, enabled_sources, all_enabled_sources_stopped,
  enter_failed, transport_error_to_stable, fatal, protocol_violation, device_interrupted,
  unsupported_source, stopped, source_running, source_recovering, source_stopped, pending, complete,
  preflight_rejected, stable,
}
use life_sub.Capture.Coordinator.Operations.{in_phase, is_stopping, is_drainable}

unfoldable pub finish_if_stopped : NativeCaptureCoordinator → Step NativeCaptureDrainOutcome
finish_if_stopped c =
    if is_stopping c.phase && all_enabled_sources_stopped c
    then (record c { phase = stopped }, ok complete)
    else (c, ok pending)

module _ (commit : ChunkSealed → Result NativeCaptureStableError (Unit {0})) where
  unfoldable pub on_chunk_sealed :
      ChunkSealed → NativeCaptureCoordinator → Step NativeCaptureDrainOutcome
  on_chunk_sealed sealed c = elim (commit sealed) [
    | err e ↦ (c, err (stable e))
    | ok _ ↦ finish_if_stopped (record c { committed_chunks = suc c.committed_chunks })
  ]

unfoldable pub on_source_interrupted :
    SourceInterrupted → NativeCaptureCoordinator → Step NativeCaptureDrainOutcome
on_source_interrupted i c =
    if i.recoverable
    then (if source_eq i.source microphone
        then enter_failed protocol_violation c
        else (c, ok pending))
    else enter_failed (device_interrupted i.source i.reason) c

unfoldable pub is_newer : ℕ → Option ℕ → Bool
is_newer generation none = true
is_newer generation (some last) = ltb last generation

unfoldable pub on_source_recovering :
    SourceRecovering → NativeCaptureCoordinator → Step NativeCaptureDrainOutcome
on_source_recovering r c =
    if not (has_state source_running (c.source_states r.source))
      || not (is_newer r.generation (c.last_recovery_generation r.source))
    then enter_failed protocol_violation c
    else (
      record c {
        last_recovery_generation = insert r.source (some r.generation) c.last_recovery_generation;
        source_states = insert r.source (some source_recovering) c.source_states;
      },
      ok pending,
    )

unfoldable pub on_source_recovered :
    SourceRecovered → NativeCaptureCoordinator → Step NativeCaptureDrainOutcome
on_source_recovered r c =
    if not (has_state source_recovering (c.source_states r.source))
      || not (is_some_and (λ g. g == r.generation) (c.last_recovery_generation r.source))
      || not (
          not (source_eq r.source microphone)
          || is_some_and (λ uid. str_eq uid r.device_id) c.selected_microphone_uid)
    then enter_failed protocol_violation c
    else (
      record c { source_states = insert r.source (some source_running) c.source_states },
      ok pending,
    )

module _ (commit : ChunkSealed → Result NativeCaptureStableError (Unit {0})) where
  -- The `match` of `handle_event`.
  unfoldable pub dispatch :
      Option CaptureHeader → NativeCaptureCoordinator → Step NativeCaptureDrainOutcome
  dispatch none c = finish_if_stopped c
  dispatch (some (chunk_sealed sealed)) c = on_chunk_sealed commit sealed c
  dispatch (some (source_stopped_event s)) c =
      if any (λ x. source_eq x s.source) (enabled_sources c)
      then (
        record c {
          stopped_enabled_sources = insert s.source true c.stopped_enabled_sources;
          source_states = insert s.source (some source_stopped) c.source_states;
        },
        ok pending,
      )
      else (c, ok pending)
  dispatch (some (source_interrupted i)) c = on_source_interrupted i c
  dispatch (some (source_recovering_event r)) c = on_source_recovering r c
  dispatch (some (source_recovered r)) c = on_source_recovered r c
  dispatch (some (fatal_error e)) c = enter_failed (fatal e.code e.summary) c
  dispatch (some shutdown_ack) c = finish_if_stopped c
  dispatch (some (source_started s)) c =
      if any (λ r. source_eq r.source s.source) c.requested_sources
      then (
        record c {
          started_sources = insert s.source true c.started_sources;
          source_states = insert s.source (some source_running) c.source_states;
        },
        ok pending,
      )
      else enter_failed protocol_violation c
  dispatch (some (microphone_devices _)) c = enter_failed protocol_violation c
  dispatch (some (microphone_probe_result _)) c = enter_failed protocol_violation c
  dispatch (some (hello _)) c = (c, ok pending)
  dispatch (some (permission_state _)) c = (c, ok pending)
  dispatch (some (audio_frame _)) c = (c, ok pending)
  dispatch (some (level _)) c = (c, ok pending)

  unfoldable pub handle_event :
      Option CaptureHeader → NativeCaptureCoordinator → Step NativeCaptureDrainOutcome
  handle_event event c = in_phase is_drainable "drain" c (dispatch event c)

  -- `next` is the answer of `next_event`.
  unfoldable pub drain_once :
      Result NativeCaptureTransportError (Option CaptureHeader)
      → NativeCaptureCoordinator
      → Step NativeCaptureDrainOutcome
  drain_once next c = in_phase is_drainable "drain" c (elim next [
    | err (unsupported_source s) ↦ (c, err (preflight_rejected s))
    | err e ↦ enter_failed (transport_error_to_stable e) c
    | ok event ↦ handle_event event c
  ])
