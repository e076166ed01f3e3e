-- ===== src/Capture/Coordinator/Reports.antt =====
-- src-tauri/src/capture/coordinator.rs: only a report puts a source into the set of stopped sources.
use life_sub.Common.{
  String, subst, ◌≡◌, refl, ◌⊎◌, inl, inr, Bool, true, false, Option, none, some, List, [], ◌∷◌,
  Result, ok, err, arith, Bool-cases, Result-cases, any,
}
use life_sub.Capture.Protocol.Headers.{
  Source, source_eq, CaptureHeader, ChunkSealed, hello, permission_state, source_started,
  microphone_devices, microphone_probe_result, audio_frame, level, chunk_sealed, source_interrupted,
  source_recovering as source_recovering_event, source_recovered,
  source_stopped as source_stopped_event, fatal_error, shutdown_ack,
}
use life_sub.Capture.Coordinator.{
  NativeCaptureCoordinator, NativeCapturePhase, NativeCaptureStableError,
  NativeCaptureTransportError, enabled_sources, unsupported_source, transport_helper_exited,
  transport_protocol_violation, transport_backpressure, enter_failed, Step,
}
use life_sub.Capture.Coordinator.Operations.{
  Reply, in_phase, preflight_each, preflight, start, pause, resume, stop, on_reply, any_recovering,
}
use life_sub.Capture.Coordinator.Events.{
  finish_if_stopped, on_chunk_sealed, on_source_interrupted, on_source_recovering,
  on_source_recovered, dispatch, handle_event, drain_once,
}
use life_sub.Capture.Coordinator.Phases.{
  Call, call_preflight, call_start, call_pause, call_resume, call_stop, call_handle_event,
  call_drain_once, run, run_all, in_phase-cases,
}

-- The event that a call hands to the coordinator is that the source has stopped.
abbrev pub is_stop_of : Source → Option CaptureHeader → Bool
is_stop_of s (some (source_stopped_event x)) = source_eq x.source s
is_stop_of s _ = false

abbrev pub reports_stop : Source → Call → Bool
reports_stop s (call_handle_event commit event) = is_stop_of s event
reports_stop s (call_drain_once commit (ok event)) = is_stop_of s event
reports_stop s _ = false

-- Nothing but a report adds a source to the set of stopped sources.
preflight_each-stopped :
    (reply : Source → Reply) (ss : List Source) (c : NativeCaptureCoordinator)
    → ((preflight_each reply ss c).0.stopped_enabled_sources ≡ c.stopped_enabled_sources)
      × ((preflight_each reply ss c).0.requested_sources ≡ c.requested_sources)
unfolding preflight_each enter_failed
preflight_each-stopped reply [] c = (refl, refl)
preflight_each-stopped reply (s ∷ ss) c = elim (Result-cases (reply s)) [
  | inl (a, e) ↦ rw (e, preflight_each) (preflight_each-stopped reply ss _)
  | inr (unsupported_source s', e) ↦ rw (e, preflight_each) (refl, refl)
  | inr (transport_helper_exited, e) ↦ rw (e, preflight_each) (refl, refl)
  | inr (transport_protocol_violation, e) ↦ rw (e, preflight_each) (refl, refl)
  | inr (transport_backpressure, e) ↦ rw (e, preflight_each) (refl, refl)
]

abbrev pub Grows : Source → Bool → NativeCaptureCoordinator → NativeCaptureCoordinator → Type 0
Grows s reported c d =
    (d.stopped_enabled_sources s ≡ true → (c.stopped_enabled_sources s ≡ true) ⊎ (reported ≡ true))
    × (d.requested_sources ≡ c.requested_sources)

unchanged :
    (s : Source) (reported : Bool) (c d : NativeCaptureCoordinator) → d ≡ c → Grows s reported c d
unchanged s reported c d e = rw e ((λ h. inl h), refl)

in_phase-Grows :
    {A : Type 0} (s : Source) (reported : Bool) (allowed : NativeCapturePhase → Bool)
    (name : String) (c : NativeCaptureCoordinator) (body : Step A)
    → Grows s reported c body.0
    → Grows s reported c ((in_phase allowed name c body).0)
in_phase-Grows s reported allowed name c body g = elim (in_phase-cases allowed name c body) [
  | inl (same, _) ↦ unchanged s reported c _ same
  | inr (is_body, _) ↦ rw is_body g
]

dispatch-Grows :
    (s : Source) (commit : ChunkSealed → Result NativeCaptureStableError (Unit {0}))
    (event : Option CaptureHeader) (c : NativeCaptureCoordinator)
    → Grows s (is_stop_of s event) c ((dispatch commit event c).0)
unfolding dispatch enter_failed finish_if_stopped on_chunk_sealed on_source_interrupted
    on_source_recovering on_source_recovered
dispatch-Grows x commit none c = ground arith
dispatch-Grows x commit (some (chunk_sealed sealed)) c = ground arith
dispatch-Grows x commit (some (source_stopped_event s)) c = ground arith
dispatch-Grows x commit (some (source_interrupted i)) c = ground arith
dispatch-Grows x commit (some (source_recovering_event r)) c = ground arith
dispatch-Grows x commit (some (source_recovered r)) c = ground arith
dispatch-Grows x commit (some (fatal_error e)) c = ground arith
dispatch-Grows x commit (some shutdown_ack) c = ground arith
dispatch-Grows x commit (some (source_started s)) c = ground arith
dispatch-Grows x commit (some (microphone_devices _)) c = ground arith
dispatch-Grows x commit (some (microphone_probe_result _)) c = ground arith
dispatch-Grows x commit (some (hello _)) c = ground arith
dispatch-Grows x commit (some (permission_state _)) c = ground arith
dispatch-Grows x commit (some (audio_frame _)) c = ground arith
dispatch-Grows x commit (some (level _)) c = ground arith

drain_err-Grows :
    (s : Source) (commit : ChunkSealed → Result NativeCaptureStableError (Unit {0}))
    (e : NativeCaptureTransportError) (c : NativeCaptureCoordinator)
    → Grows s false c ((drain_once commit (err e) c).0)
unfolding drain_once enter_failed
drain_err-Grows s commit (unsupported_source x) c = in_phase-Grows s _ _ _ c _ ((λ h. inl h), refl)
drain_err-Grows s commit transport_helper_exited c = in_phase-Grows s _ _ _ c _ ((λ h. inl h), refl)
drain_err-Grows s commit transport_protocol_violation c =
    in_phase-Grows s _ _ _ c _ ((λ h. inl h), refl)
drain_err-Grows s commit transport_backpressure c = in_phase-Grows s _ _ _ c _ ((λ h. inl h), refl)

on_reply-Grows :
    {A : Type 0} (s : Source) (reply : Reply) (c : NativeCaptureCoordinator) (body : Step A)
    → Grows s false c body.0
    → Grows s false c ((on_reply reply c body).0)
unfolding on_reply enter_failed
on_reply-Grows s (ok a) c body g = g
on_reply-Grows s (err e) c body g = ((λ h. inl h), refl)

pub grows :
    (s : Source) (call : Call) (c : NativeCaptureCoordinator)
    → Grows s (reports_stop s call) c ((run call c).0)
unfolding run preflight start pause resume stop handle_event drain_once
grows s (call_preflight reply) c =
    in_phase-Grows s _ _ _ c (preflight_each reply (enabled_sources c) c) (
      let (e, f) = preflight_each-stopped reply (enabled_sources c) c in
      ((λ h. inl (subst (λ m. m s ≡ true) e h)), f))
grows s (call_start reply uid) c =
    in_phase-Grows s _ _ _ c _
      (on_reply-Grows s (reply (enabled_sources c) uid) c _ ((λ h. inl h), refl))
grows s (call_pause reply) c = in_phase-Grows s _ _ _ c _ (elim (Bool-cases (any_recovering c)) [
  | inl e ↦ rw e ((λ h. inl h), refl)
  | inr e ↦ rw e (on_reply-Grows s reply c _ ((λ h. inl h), refl))
])
grows s (call_resume reply) c =
    in_phase-Grows s _ _ _ c _ (on_reply-Grows s reply c _ ((λ h. inl h), refl))
grows s (call_stop reply) c =
    in_phase-Grows s _ _ _ c _ (on_reply-Grows s reply c _ ((λ h. inl h), refl))
grows s (call_handle_event commit event) c =
    in_phase-Grows s _ _ _ c _ (dispatch-Grows s commit event c)
grows s (call_drain_once commit (ok event)) c =
    in_phase-Grows s _ _ _ c _ (in_phase-Grows s _ _ _ c _ (dispatch-Grows s commit event c))
grows s (call_drain_once commit (err e)) c = drain_err-Grows s commit e c

pub run_all-Grows :
    (s : Source) (calls : List Call) (c : NativeCaptureCoordinator)
    → Grows s (any (reports_stop s) calls) c (run_all calls c)
unfolding run_all
run_all-Grows s [] c = ((λ h. inl h), refl)
run_all-Grows s (call ∷ calls) c =
    let (first, same) = grows s call c in
    let (rest, same') = run_all-Grows s calls ((run call c).0) in ground arith
