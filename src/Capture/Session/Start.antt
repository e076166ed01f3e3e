-- ===== src/Capture/Session/Start.antt =====
-- src-tauri/src/capture/session.rs: NativeCaptureSession, which starts the worker's thread and talks with it. The
-- thread is the Turn that its loop has come to.
use life_sub.Common.{
  ℕ, Bool, true, false, not, Option, none, some, List, [], ◌∷◌, String, Result, ok, err, ◌>>=◌,
  ◌>>◌, guard, map,
}
use life_sub.Capture.Protocol.Headers.{Source, SourceStarted}
use life_sub.Capture.Coordinator.{sources_of}
use life_sub.Capture.Coordinator.Operations.{Reply}
use life_sub.Capture.Session.{
  NativeCaptureMode, NativeCaptureSessionError, SessionResult, LiveCaptureError, already_running,
  missing_session, worker_exited, catalog_failed, live_capture_error, requests_for_mode,
  validate_microphone_selection,
}
use life_sub.Capture.Session.Worker.{StartupMessage, Round, Turn, continues, returns}
use life_sub.Capture.Session.Rounds.{run_rounds, begin_worker}

pub record NativeCaptureSourceStatus : Type 0 where
  pub source : Source
  pub permission : String
  pub device_id : String
  pub device_name : String
  pub ready : Bool

pub record NativeCaptureStartStatus : Type 0 where
  pub state : String
  pub session_id : String
  pub enabled_sources : List Source
  pub sources : List NativeCaptureSourceStatus

pub record NativeCaptureSession : Type 0 where
  pub active : Option Turn

abbrev pub goes_on : Turn → Bool
goes_on (continues w) = true
goes_on (returns w _) = false

-- The error that the thread leaves when it ends.
abbrev pub last_error : Turn → Option NativeCaptureSessionError
last_error (returns w (err e)) = some e
last_error _ = none

unfoldable pub is_session_running : NativeCaptureSession → Bool
is_session_running session = elim session.active [ none ↦ false | some turn ↦ goes_on turn ]

unfoldable pub recent_error :
    (NativeCaptureSessionError → String) → NativeCaptureSession → Option LiveCaptureError
recent_error other session = elim session.active [
  | none ↦ none
  | some turn ↦ elim (last_error turn) [ none ↦ none | some e ↦ some (live_capture_error other e) ]
]

abbrev pub source_status : SourceStarted → NativeCaptureSourceStatus
source_status s = record {
  source = s.source;
  permission = "granted";
  device_id = s.device_id;
  device_name = s.device_name;
  ready = true;
}

-- What `startup_rx.recv()` yields: the first message, or the end of the channel; nothing while it waits.
abbrev pub received : SessionResult Turn → Option StartupMessage
received (err _) = some (err worker_exited)
received (ok (returns w _)) = elim w.startup [ [] ↦ some (err worker_exited) | m ∷ _ ↦ some m ]
received (ok (continues w)) = elim w.startup [ [] ↦ none | m ∷ _ ↦ some m ]

-- What a start meets: the catalog's answer to `session_exists`, that of the staging directory, and the worker's.
pub record StartAnswers : Type 0 where
  pub exists_session : Result String Bool
  pub staged : SessionResult (Unit {0})
  pub made : SessionResult (Unit {0})
  pub preflight_reply : Source → Reply
  pub start_reply : List Source → Option String → Reply
  pub rounds : List Round

module _ (add_milliseconds : ℕ → ℕ → ℕ) where
  -- The worker, from its beginning to the end of the rounds.
  unfoldable pub run_worker :
      StartAnswers → String → NativeCaptureMode → Option String → SessionResult Turn
  run_worker answers session_id mode uid = do
    begun ←
        begin_worker answers.made answers.preflight_reply answers.start_reply
          (requests_for_mode mode) uid
    ok (
        run_rounds session_id (sources_of (requests_for_mode mode)) uid add_milliseconds
          answers.rounds begun)

  -- The tests before the thread is spawned, and the selected microphone.
  unfoldable pub check_start :
      StartAnswers
      → NativeCaptureMode
      → Option String
      → NativeCaptureSession
      → SessionResult (Option String)
  check_start answers mode uid session = do
    guard (not (is_session_running session)) already_running
    exists ← elim answers.exists_session [
      | err summary ↦ err (catalog_failed summary)
      | ok e ↦ ok e
    ]
    guard exists missing_session
    selected ← validate_microphone_selection mode uid
    answers.staged
    ok selected

  abbrev pub start_status :
      String → NativeCaptureMode → List SourceStarted → NativeCaptureStartStatus
  start_status session_id mode started = record {
    state = "started";
    session_id = session_id;
    enabled_sources = sources_of (requests_for_mode mode);
    sources = map source_status started;
  }

  abbrev pub started_session : SessionResult Turn → NativeCaptureSession → NativeCaptureSession
  started_session (ok turn) session = record { active = some turn }
  started_session (err _) session = session

  -- What is made of the startup message.
  unfoldable pub finish_start :
      String
      → NativeCaptureMode
      → SessionResult Turn
      → NativeCaptureSession
      → Option StartupMessage
      → Option (NativeCaptureSession × SessionResult NativeCaptureStartStatus)
  finish_start session_id mode worker session none = none
  finish_start session_id mode worker session (some (err e)) = some (session, err e)
  finish_start session_id mode worker session (some (ok started)) =
      some (started_session worker session, ok (start_status session_id mode started))

  -- The thread, once the tests are passed.
  unfoldable pub spawn_worker :
      StartAnswers
      → String
      → NativeCaptureMode
      → NativeCaptureSession
      → SessionResult (Option String)
      → Option (NativeCaptureSession × SessionResult NativeCaptureStartStatus)
  spawn_worker answers session_id mode session (err e) = some (session, err e)
  spawn_worker answers session_id mode session (ok selected) =
      let worker = run_worker answers session_id mode selected in
      finish_start session_id mode worker session (received worker)

  -- `start_with_transport_factory`; `none` while it waits for the worker's message.
  unfoldable pub start_session :
      StartAnswers
      → String
      → NativeCaptureMode
      → Option String
      → NativeCaptureSession
      → Option (NativeCaptureSession × SessionResult NativeCaptureStartStatus)
  start_session answers session_id mode uid session =
      spawn_worker answers session_id mode session (check_start answers mode uid session)
