-- ===== src/Capture/Session/Rounds.antt =====
-- src-tauri/src/capture/session.rs: run_worker, a round of its loop after another.
use life_sub.Common.{
  ℕ, Bool, true, false, not, ◌&&◌, Option, none, some, List, [], ◌∷◌, String, Result, ok, err,
  ◌>>=◌, ◌==◌, if◌then◌else◌, any, str_eq, is_some_and, ◌>>◌,
}
use life_sub.Capture.Protocol.Headers.{
  Source, microphone, source_eq, CaptureHeader, source_started, chunk_sealed, shutdown_ack,
  SourceStarted, ChunkSealed,
}
use life_sub.Capture.Coordinator.{
  NativeCaptureCoordinator, NativeCaptureSourceRequest, NativeCaptureStableError,
  NativeCaptureTransportError, NativeCaptureDrainOutcome, complete, pending, Step,
  CoordinatorResult, insert, new, protocol_violation,
}
use life_sub.Capture.Coordinator.Operations.{Reply, is_drainable, preflight, start}
use life_sub.Capture.Coordinator.Events.{handle_event}
use life_sub.Capture.Committer.{CatalogCaptureCommitter, new_committer, commit}
use life_sub.Capture.Session.{
  SessionResult, session_stable, session_protocol_violation, catalog_failed, from_coordinator_error,
  map_transport_error, stable_fatal, register_capture_sources,
}
use life_sub.Capture.Session.Worker.{
  NativeCaptureWorker, Round, Turn, continues, returns, then_do, handle_controls, send_startup,
  fail_with, count_started, count_enabled, started_values, earliest, has_committer,
}

module _ (session_id : String) where
  -- The committer, once every enabled source has started.
  unfoldable pub make_committer : Round → NativeCaptureWorker → Turn
  make_committer answers w =
      elim (register_capture_sources answers.new_id answers.insert_all answers.now session_id
        w.started_sources) [
          | err e ↦ returns w (err e)
          | ok source_ids ↦ elim (earliest (started_values w.started_sources)) [
            | none ↦ returns w (err session_protocol_violation)
            | some session_anchor_ns ↦ elim answers.opened [
              | err summary ↦ returns w (err (catalog_failed summary))
              | ok _ ↦
                  let made = record w {
                    committer = some (new_committer session_id source_ids session_anchor_ns);
                  } in
                  continues (
                    if w.startup_sent
                    then made
                    else record (send_startup (ok (started_values w.started_sources)) made) {
                      startup_sent = true;
                    })
            ]
          ]
        ]

module _ (session_id : String) (enabled : List Source) (requested_uid : Option String) where
  abbrev pub is_other_device : SourceStarted → Bool
  is_other_device started =
      source_eq started.source microphone
      && is_some_and (λ uid. not (str_eq started.device_id uid)) requested_uid

  unfoldable pub on_started : Round → SourceStarted → NativeCaptureWorker → Turn
  on_started answers started w =
      if not (any (source_eq started.source) enabled)
      then returns w (err session_protocol_violation)
      else (if is_other_device started
          then fail_with (stable_fatal "selected_microphone_identity_mismatch" "所选麦克风与实际启动设备不一致。") w
          else (let w' = record w {
            started_sources = insert started.source (some started) w.started_sources;
          } in
              if not (has_committer w) && count_started w'.started_sources == count_enabled enabled
              then make_committer session_id answers w'
              else continues w'))

  -- What the worker does with an event before the coordinator gets it.
  unfoldable pub before_event : Round → Option CaptureHeader → NativeCaptureWorker → Turn
  before_event answers (some (source_started started)) w = on_started answers started w
  before_event answers (some (chunk_sealed _)) w =
      if has_committer w then continues w else fail_with session_protocol_violation w
  before_event answers (some shutdown_ack) w = continues (record w { shutdown_ack = true })
  before_event answers _ w = continues w

abbrev pub is_complete : NativeCaptureDrainOutcome → Bool
is_complete complete = true
is_complete pending = false

-- The end of a round: the startup message, the request to shut down, and the test of the end.
unfoldable pub after_event : Round → NativeCaptureDrainOutcome → NativeCaptureWorker → Turn
after_event answers outcome w =
    let w1 =
      if not w.startup_sent && has_committer w
      then record (send_startup (ok (started_values w.started_sources)) w) { startup_sent = true }
      else w in
    then_do
      (if is_complete outcome && w1.stop_requested && not w1.shutdown_sent
        then elim answers.shut_down [
          | err e ↦ returns w1 (err (session_stable (map_transport_error e)))
          | ok _ ↦ continues (record w1 { shutdown_sent = true })
        ]
        else continues w1)
      (λ w2. if w2.shutdown_sent && w2.shutdown_ack then returns w2 (ok tt) else continues w2)

-- The `match` on the outcome of `handle_event`, and the rest of the round.
unfoldable pub settle_event :
    Round → NativeCaptureWorker → CoordinatorResult NativeCaptureDrainOutcome → Turn
settle_event answers w (err e) = fail_with (from_coordinator_error e) w
settle_event answers w (ok outcome) = after_event answers outcome w

module _ (add_milliseconds : ℕ → ℕ → ℕ) where
  -- The `commit` of the committer, or of the `PendingCommitter` before there is one.
  unfoldable pub commit_with :
      Round
      → Option CatalogCaptureCommitter
      → ChunkSealed
      → Result NativeCaptureStableError (Unit {0})
  commit_with answers none sealed = err protocol_violation
  commit_with answers (some c) sealed =
      (commit add_milliseconds answers.now answers.sealing answers.after_commit sealed c).1

  -- The committer after the event: an event asks for at most one commit, and an event of another kind
  -- for none.
  unfoldable pub committer_after :
      Round → Option CatalogCaptureCommitter → Option CaptureHeader → Option CatalogCaptureCommitter
  committer_after answers none event = none
  committer_after answers (some c) (some (chunk_sealed sealed)) =
      some ((commit add_milliseconds answers.now answers.sealing answers.after_commit sealed c).0)
  committer_after answers (some c) _ = some c

  unfoldable pub on_event : Round → Option CaptureHeader → NativeCaptureWorker → Turn
  on_event answers event w =
      let handled = handle_event (commit_with answers w.committer) event w.coordinator in
      let w' = record w {
        coordinator = handled.0;
        committer =
            if is_drainable w.coordinator.phase
            then committer_after answers w.committer event
            else w.committer;
      } in
      settle_event answers w' handled.1

module _ (session_id : String) (enabled : List Source) (requested_uid : Option String)
    (add_milliseconds : ℕ → ℕ → ℕ) where
  -- The `match` on the answer of `next_event`, and the rest of the round.
  unfoldable pub take_event :
      Round → Result NativeCaptureTransportError (Option CaptureHeader) → NativeCaptureWorker → Turn
  take_event answers (err e) w = fail_with (session_stable (map_transport_error e)) w
  take_event answers (ok event) w =
      then_do (before_event session_id enabled requested_uid answers event w)
        (on_event add_milliseconds answers event)

  unfoldable pub round : Round → NativeCaptureWorker → Turn
  round answers w = take_event answers answers.next (handle_controls answers.controls w)

  -- The loop, for as long as there are answers.
  unfoldable pub run_rounds : List Round → NativeCaptureWorker → Turn
  run_rounds [] w = continues w
  run_rounds (r ∷ rs) w = then_do (round r w) (run_rounds rs)

abbrev pub fresh_worker : NativeCaptureCoordinator → NativeCaptureWorker
fresh_worker c = record {
  coordinator = c;
  started_sources = λ _. none;
  committer = none;
  startup_sent = false;
  stop_requested = false;
  shutdown_sent = false;
  shutdown_ack = false;
  startup = [];
  replies = [];
}

abbrev pub checked : Step (Unit {0}) → SessionResult NativeCaptureCoordinator
checked step = elim step.1 [ err e ↦ err (from_coordinator_error e) | ok _ ↦ ok step.0 ]

abbrev pub coordinator_for :
    List NativeCaptureSourceRequest → SessionResult NativeCaptureCoordinator
coordinator_for requests = elim (new requests) [
  | err e ↦ err (from_coordinator_error e)
  | ok c ↦ ok c
]

-- The calls of `preflight` and `start`: the answers are those of `preflight_source` and of `start`.
unfoldable pub start_up :
    (Source → Reply)
    → (List Source → Option String → Reply)
    → Option String
    → NativeCaptureCoordinator
    → SessionResult NativeCaptureWorker
start_up preflight_reply start_reply uid c = do
  preflighted ← checked (preflight preflight_reply c)
  started ← checked (start start_reply uid preflighted)
  ok (fresh_worker started)

-- The worker up to its loop; `made` is the answer of the transport's factory.
unfoldable pub begin_worker :
    SessionResult (Unit {0})
    → (Source → Reply)
    → (List Source → Option String → Reply)
    → List NativeCaptureSourceRequest
    → Option String
    → SessionResult NativeCaptureWorker
begin_worker made preflight_reply start_reply requests uid = do
  made
  c ← coordinator_for requests
  start_up preflight_reply start_reply uid c
