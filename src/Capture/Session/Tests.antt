-- ===== src/Capture/Session/Tests.antt =====
-- src-tauri/src/capture/session.rs: a capture of a microphone, from its start to its end.
use life_sub.Common.{
  ℕ, ◌+◌, ◌≡◌, refl, true, false, none, some, List, [], ◌∷◌, Option, Result, ok, err, any, all,
  trim, trim_start, trim_end, trim_is_empty, is_whitespace, str_is_empty,
}
use life_sub.Capture.Protocol.Headers.{
  microphone, source_eq, CaptureHeader, source_started, source_stopped, shutdown_ack,
}
use life_sub.Capture.Coordinator.{
  NativeCaptureCoordinator, NativeCaptureTransportError, NativeCaptureSourceRequest, running,
  insert, source_running, source_requested, source_preflighted, all_enabled_sources_stopped,
  enabled_sources, enabled_started_sources, ensure_not_failed, new, scan_requests, stopped,
}
use life_sub.Capture.Coordinator.Operations.{
  in_phase, on_reply, stop, preflight, preflight_each, start,
}
use life_sub.Capture.Coordinator.Events.{handle_event, dispatch, finish_if_stopped}
use life_sub.Capture.Seal.{other_kind, io}
use life_sub.Capture.Session.{
  register_capture_sources, validate_microphone_selection, mic_only, requests_for_mode,
  selected_text,
}
use life_sub.Capture.Session.Worker.{
  handle_control, handle_controls, NativeCaptureWorker, ControlMessage, control_stop, Round,
  worker_of,
}
use life_sub.Capture.Session.Rounds.{
  begin_worker, start_up, take_event, before_event, on_started, make_committer, on_event,
  settle_event, after_event, committer_after, round, run_rounds, fresh_worker,
}
use life_sub.Capture.Session.Ends.{has_failed}
use life_sub.Capture.Session.Shutdown.{ends_after_shutdown}
use life_sub.Capture.Session.Success.{tells_stop, succeeds_after_stops}
use life_sub.Capture.Session.Startup.{is_answer, answers_once}
use life_sub.Capture.Session.Start.{
  StartAnswers, NativeCaptureStartStatus, NativeCaptureSession, start_session, is_session_running,
  run_worker, check_start, spawn_worker, finish_start,
}
use life_sub.Capture.Session.Reported.{is_reported, start_session_reports}

abbrev hearing :
    List ControlMessage → Result NativeCaptureTransportError (Option CaptureHeader) → Round
hearing controls next = record {
  controls = controls;
  next = next;
  now = 3;
  new_id = λ _. "src_1";
  insert_all = λ _. ok tt;
  opened = ok tt;
  sealing = λ _. err (io other_kind);
  after_commit = λ _. ok tt;
  shut_down = ok tt;
}

abbrev starting : Round
starting = hearing [] (
    ok (
      some (
        source_started (record {
          source = microphone;
          device_id = "uid_1";
          device_name = "Desk";
          sample_rate = 48000;
          channel_count = 1;
          host_time = 100;
        }))))

abbrev stopping : Round
stopping = hearing (control_stop (ok tt) ∷ []) (
    ok (
      some (
        source_stopped (record {
          source = microphone;
          final_sequence = 5;
          start_host_time = 100;
          end_host_time = 900;
        }))))

abbrev requests : List NativeCaptureSourceRequest
requests = record { source = microphone; enabled = true } ∷ []

abbrev add : ℕ → ℕ → ℕ
add time ms = time + ms

abbrev begun : NativeCaptureCoordinator
begun = record {
  requested_sources = requests;
  phase = running;
  source_states = insert microphone (some source_running) (
      insert microphone (some source_preflighted)
        (insert microphone (some source_requested) (λ _. none)));
  started_sources = insert microphone true (λ _. false);
  stopped_enabled_sources = λ _. false;
  committed_chunks = 0;
  selected_microphone_uid = some "uid_1";
  last_recovery_generation = λ _. none;
}

answers_once_example :
    is_answer "ses_1" (microphone ∷ []) (some "uid_1") (
      (worker_of (
        run_rounds "ses_1"
          (microphone ∷ [])
          (some "uid_1")
          add
          (starting ∷ starting ∷ [])
          (fresh_worker begun))).startup)
    ≡ true
answers_once_example =
    answers_once "ses_1" (microphone ∷ []) (some "uid_1") add (starting ∷ starting ∷ []) begun

-- The worker after the shutdown is asked for, in a round that hears nothing.
abbrev waiting : NativeCaptureWorker
waiting = worker_of (
    run_rounds "ses_1" (microphone ∷ []) (some "uid_1") add
      (starting ∷ stopping ∷ hearing [] (ok none) ∷ []) (fresh_worker begun))

ends_after_shutdown_example :
    has_failed (
      round "ses_1"
        (microphone ∷ [])
        (some "uid_1")
        add
        (hearing [] (ok (some shutdown_ack)))
        waiting)
    ≡ true
unfolding run_rounds round take_event before_event on_started handle_controls make_committer
    register_capture_sources on_event settle_event handle_event in_phase ensure_not_failed dispatch
    after_event handle_control stop on_reply finish_if_stopped all_enabled_sources_stopped
    enabled_sources enabled_started_sources committer_after
ends_after_shutdown_example =
    ends_after_shutdown "ses_1" (microphone ∷ []) (some "uid_1") add
      (starting ∷ stopping ∷ hearing [] (ok none) ∷ []) begun waiting
      (hearing [] (ok (some shutdown_ack))) refl refl

-- The rounds of a capture that ends well: the acknowledgement comes with the round that ends the capture.
abbrev well_ended : List Round
well_ended = starting ∷ stopping ∷ hearing [] (ok (some shutdown_ack)) ∷ []

abbrev at_last : NativeCaptureWorker
at_last =
    worker_of
      (run_rounds "ses_1" (microphone ∷ []) (some "uid_1") add well_ended (fresh_worker begun))

succeeds_after_stops_example :
    (at_last.stop_requested ≡ true)
    × (at_last.shutdown_sent ≡ true)
    × (at_last.shutdown_ack ≡ true)
    × (at_last.coordinator.phase ≡ stopped)
    × (any (tells_stop microphone) well_ended ≡ true)
unfolding begin_worker start_up new scan_requests preflight preflight_each start run_rounds round
    take_event before_event on_started handle_controls make_committer register_capture_sources
    on_event settle_event handle_event in_phase ensure_not_failed dispatch after_event
    handle_control stop on_reply finish_if_stopped all_enabled_sources_stopped enabled_sources
    enabled_started_sources committer_after
succeeds_after_stops_example =
    succeeds_after_stops (ok tt) (λ _. ok tt) (λ _ _. ok tt) requests (some "uid_1") "ses_1" add
      (fresh_worker begun) at_last well_ended microphone refl refl refl

abbrev answers : StartAnswers
answers = record {
  exists_session = ok true;
  staged = ok tt;
  made = ok tt;
  preflight_reply = λ _. ok tt;
  start_reply = λ _ _. ok tt;
  rounds = starting ∷ [];
}

abbrev status : NativeCaptureStartStatus
status = record {
  state = "started";
  session_id = "ses_1";
  enabled_sources = microphone ∷ [];
  sources =
      record {
        source = microphone;
        permission = "granted";
        device_id = "uid_1";
        device_name = "Desk";
        ready = true;
      }
      ∷ [];
}

abbrev idle : NativeCaptureSession
idle = record { active = none }

start_session_reports_example :
    (is_session_running idle ≡ false)
    × (status.enabled_sources ≡ microphone ∷ [])
    × (all (is_reported (microphone ∷ []) (selected_text (some " uid_1 "))) status.sources ≡ true)
    × (all (λ s. any (λ x. source_eq s x.source) status.sources) (microphone ∷ []) ≡ true)
unfolding start_session check_start spawn_worker run_worker finish_start
    validate_microphone_selection is_session_running requests_for_mode begin_worker start_up new
    scan_requests preflight preflight_each start trim trim_start trim_end trim_is_empty
    is_whitespace str_is_empty run_rounds round take_event before_event on_started handle_controls
    make_committer register_capture_sources on_event settle_event handle_event in_phase
    ensure_not_failed dispatch after_event handle_control stop on_reply finish_if_stopped
    all_enabled_sources_stopped enabled_sources enabled_started_sources committer_after
start_session_reports_example =
    start_session_reports add answers "ses_1" mic_only (some " uid_1 ") idle
      (record {
        active = some (
            run_rounds "ses_1" (microphone ∷ []) (some "uid_1") add (starting ∷ [])
              (fresh_worker begun));
      })
      status refl
