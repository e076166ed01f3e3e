-- ===== src/Capture/Coordinator/Ended.antt =====
-- src-tauri/src/capture/coordinator.rs: a capture that has ended was told of the end of each of its sources.
use life_sub.Common.{
  String, subst, ◌≡◌, refl, ◌∙◌, inl, inr, Bool, true, false, not, Option, none, some, List, [],
  ◌∷◌, Result, ok, err, arith, Bool-cases, Result-cases, any, all,
}
use life_sub.Capture.Protocol.Headers.{
  Source, source_eq, CaptureHeader, ChunkSealed, hello, permission_state, source_started,
  microphone_devices, microphone_probe_result, audio_frame, level, chunk_sealed, source_interrupted,
  source_recovering as source_recovering_event, source_recovered,
  source_stopped as source_stopped_event, fatal_error, shutdown_ack,
}
use life_sub.Capture.Coordinator.{
  NativeCaptureCoordinator, NativeCapturePhase, NativeCaptureStableError,
  NativeCaptureTransportError, NativeCaptureSourceRequest, requested, stopped, enabled_sources,
  unsupported_source, transport_helper_exited, transport_protocol_violation, transport_backpressure,
  sources_of, all_enabled_sources_stopped, enter_failed, new, Step,
}
use life_sub.Capture.Coordinator.Operations.{
  Reply, in_phase, preflight_each, preflight, start, pause, resume, stop, on_reply, any_recovering,
  is_drainable,
}
use life_sub.Capture.Coordinator.Events.{
  finish_if_stopped, on_chunk_sealed, on_source_interrupted, on_source_recovering,
  on_source_recovered, dispatch, handle_event, drain_once,
}
use life_sub.Capture.Coordinator.Phases.{
  Call, call_preflight, call_start, call_pause, call_resume, call_stop, call_handle_event,
  call_drain_once, run, run_all, in_phase-cases,
}
use life_sub.Capture.Coordinator.Reports.{reports_stop, run_all-Grows}

abbrev pub in_stopped_phase : NativeCapturePhase → Bool
in_stopped_phase stopped = true
in_stopped_phase _ = false

unfoldable pub Ended : NativeCaptureCoordinator → Type 0
Ended c = c.phase ≡ stopped → all_enabled_sources_stopped c ≡ true

dispatch-Ended :
    (commit : ChunkSealed → Result NativeCaptureStableError (Unit {0}))
    (event : Option CaptureHeader) (c : NativeCaptureCoordinator)
    → is_drainable c.phase ≡ true
    → Ended ((dispatch commit event c).0)
unfolding Ended dispatch enter_failed finish_if_stopped on_chunk_sealed on_source_interrupted
    on_source_recovering on_source_recovered all_enabled_sources_stopped enabled_sources
dispatch-Ended commit none c h = ground arith
dispatch-Ended commit (some (chunk_sealed sealed)) c h = ground arith
dispatch-Ended commit (some (source_stopped_event s)) c h = ground arith
dispatch-Ended commit (some (source_interrupted i)) c h = ground arith
dispatch-Ended commit (some (source_recovering_event r)) c h = ground arith
dispatch-Ended commit (some (source_recovered r)) c h = ground arith
dispatch-Ended commit (some (fatal_error e)) c h = ground arith
dispatch-Ended commit (some shutdown_ack) c h = ground arith
dispatch-Ended commit (some (source_started s)) c h = ground arith
dispatch-Ended commit (some (microphone_devices _)) c h = ground arith
dispatch-Ended commit (some (microphone_probe_result _)) c h = ground arith
dispatch-Ended commit (some (hello _)) c h = ground arith
dispatch-Ended commit (some (permission_state _)) c h = ground arith
dispatch-Ended commit (some (audio_frame _)) c h = ground arith
dispatch-Ended commit (some (level _)) c h = ground arith

in_phase-Ended :
    {A : Type 0} (allowed : NativeCapturePhase → Bool) (name : String)
    (c : NativeCaptureCoordinator) (body : Step A)
    → Ended c
    → (allowed c.phase ≡ true → Ended body.0)
    → Ended ((in_phase allowed name c body).0)
in_phase-Ended allowed name c body v f = elim (in_phase-cases allowed name c body) [
  | inl (same, _) ↦ rw same v
  | inr (is_body, h) ↦ rw is_body (f h)
]

not-Ended : (c : NativeCaptureCoordinator) → not (in_stopped_phase c.phase) ≡ true → Ended c
unfolding Ended
not-Ended c h = λ e. ground arith

drain_err-Ended :
    (commit : ChunkSealed → Result NativeCaptureStableError (Unit {0}))
    (e : NativeCaptureTransportError) (c : NativeCaptureCoordinator)
    → Ended c
    → Ended ((drain_once commit (err e) c).0)
unfolding drain_once enter_failed
drain_err-Ended commit (unsupported_source s) c v = in_phase-Ended _ _ c _ v (λ _. v)
drain_err-Ended commit transport_helper_exited c v =
    in_phase-Ended _ _ c _ v (λ _. not-Ended _ refl)
drain_err-Ended commit transport_protocol_violation c v =
    in_phase-Ended _ _ c _ v (λ _. not-Ended _ refl)
drain_err-Ended commit transport_backpressure c v = in_phase-Ended _ _ c _ v (λ _. not-Ended _ refl)

preflight_each-Ended :
    (reply : Source → Reply) (ss : List Source) (c : NativeCaptureCoordinator)
    → not (in_stopped_phase c.phase) ≡ true
    → Ended ((preflight_each reply ss c).0)
unfolding preflight_each enter_failed
preflight_each-Ended reply [] c h = not-Ended _ refl
preflight_each-Ended reply (s ∷ ss) c h = elim (Result-cases (reply s)) [
  | inl (a, e) ↦ rw (e, preflight_each) (preflight_each-Ended reply ss _ h)
  | inr (unsupported_source s', e) ↦ rw (e, preflight_each) (not-Ended c h)
  | inr (transport_helper_exited, e) ↦ rw (e, preflight_each) (not-Ended _ refl)
  | inr (transport_protocol_violation, e) ↦ rw (e, preflight_each) (not-Ended _ refl)
  | inr (transport_backpressure, e) ↦ rw (e, preflight_each) (not-Ended _ refl)
]

on_reply-Ended :
    {A : Type 0} (reply : Reply) (c : NativeCaptureCoordinator) (body : Step A)
    → Ended body.0
    → Ended ((on_reply reply c body).0)
unfolding on_reply enter_failed
on_reply-Ended (ok a) c body v = v
on_reply-Ended (err e) c body v = not-Ended _ refl

pub run-Ended : (call : Call) (c : NativeCaptureCoordinator) → Ended c → Ended ((run call c).0)
unfolding run preflight start pause resume stop handle_event drain_once
run-Ended (call_preflight reply) c v =
    in_phase-Ended _ _ c _ v (λ h. preflight_each-Ended reply (enabled_sources c) c (ground arith))
run-Ended (call_start reply uid) c v =
    in_phase-Ended _ _ c _ v
      (λ h. on_reply-Ended (reply (enabled_sources c) uid) c _ (not-Ended _ refl))
run-Ended (call_pause reply) c v = in_phase-Ended _ _ c _ v (λ h.
    elim (Bool-cases (any_recovering c)) [
      | inl e ↦ rw e v
      | inr e ↦ rw e (on_reply-Ended reply c _ (not-Ended _ refl))
    ])
run-Ended (call_resume reply) c v =
    in_phase-Ended _ _ c _ v (λ h. on_reply-Ended reply c _ (not-Ended _ refl))
run-Ended (call_stop reply) c v =
    in_phase-Ended _ _ c _ v (λ h. on_reply-Ended reply c _ (not-Ended _ refl))
run-Ended (call_handle_event commit event) c v =
    in_phase-Ended _ _ c _ v (dispatch-Ended commit event c)
run-Ended (call_drain_once commit (ok event)) c v =
    in_phase-Ended _ _ c _ v (λ h. in_phase-Ended _ _ c _ v (dispatch-Ended commit event c))
run-Ended (call_drain_once commit (err e)) c v = drain_err-Ended commit e c v

pub run_all-Ended :
    (calls : List Call) (c : NativeCaptureCoordinator) → Ended c → Ended (run_all calls c)
unfolding run_all
run_all-Ended [] c v = v
run_all-Ended (call ∷ calls) c v = run_all-Ended calls _ (run-Ended call c v)

pub new_starts :
    (requests : List NativeCaptureSourceRequest) (c : NativeCaptureCoordinator)
    → new requests ≡ ok c
    → (c.phase ≡ requested)
      × ((s : Source) → c.stopped_enabled_sources s ≡ false)
      × (c.requested_sources ≡ requests)
unfolding new
new_starts requests c h = ground arith

pub all-any :
    (s : Source) (p : Source → Bool) (ss : List Source)
    → all p ss ≡ true
    → any (source_eq s) ss ≡ true
    → p s ≡ true
all-any s p [] h k = cc
all-any s p (x ∷ ss) h k = grind (arith, all-any s p ss)

-- When a capture that `new` has made for some requests has come to the phase `stopped`, by any sequence of
-- calls and whatever the transport and the committer have answered, then for each source that the requests
-- enable, one of the calls has handed the coordinator the message that the source has stopped.
pub stopped_after_reports :
    (requests : List NativeCaptureSourceRequest) (c : NativeCaptureCoordinator) (calls : List Call)
    (s : Source)
    → new requests ≡ ok c
    → (run_all calls c).phase ≡ stopped
    → any (source_eq s) (sources_of requests) ≡ true
    → any (reports_stop s) calls ≡ true
unfolding Ended all_enabled_sources_stopped enabled_sources
stopped_after_reports requests c calls s made h k =
    let (fresh, none_stopped, same) = new_starts requests c made in
    let (reported, same') = run_all-Grows s calls c in
    let ended = run_all-Ended calls c (λ e. ground arith) h in
    let e = same' ∙ same in
    elim (reported (
      all-any s (run_all calls c).stopped_enabled_sources (sources_of requests)
        (subst (λ r. all (run_all calls c).stopped_enabled_sources (sources_of r) ≡ true) e ended)
        k)) [ inl before ↦ ground (arith, none_stopped s) | inr y ↦ y ]
