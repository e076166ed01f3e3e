-- ===== src/Capture/Session/Worker.antt =====
-- src-tauri/src/capture/session.rs: the variables of run_worker, the thread that drives a
-- capture, and the messages of its channels. What the transport,
-- the catalog, the sealer and the clock answer in a round of the loop is the record Round. A `HashMap` over
-- sources is a function into `Option`.
use life_sub.Common.{
  is_ok, ℕ, ◌+◌, min, Bool, true, false, ◌||◌, Option, none, some, List, [], ◌∷◌, ◌++◌, String,
  Result, ok, err, if◌then◌else◌, any, length, map,
}
use life_sub.Capture.Protocol.Headers.{
  Source, microphone, system_audio, source_eq, CaptureHeader, SourceStarted,
}
use life_sub.Capture.Coordinator.{
  NativeCaptureCoordinator, NativeCaptureTransportError, Step, CoordinatorResult,
}
use life_sub.Capture.Coordinator.Operations.{Reply, pause, resume, stop}
use life_sub.Capture.Seal.{AudioChunk, NativeChunkSealRequest, NativeChunkSealError}
use life_sub.Capture.Committer.{CatalogCaptureCommitter}
use life_sub.Capture.Session.{
  from_coordinator_error, NativeCaptureSessionError, SessionResult, from_coordinator_error,
  CaptureSourceRecord, entries,
}

-- A message of the control channel, with what the transport answers to its request.
pub data ControlMessage : Type 0 where
  control_pause control_resume control_stop : Reply → ControlMessage

-- What the worker hands to the thread that has started it.
abbrev pub StartupMessage : Type 0
StartupMessage = SessionResult (List SourceStarted)

-- The variables of the loop, with what has been sent over the channels.
pub record NativeCaptureWorker : Type 0 where
  pub coordinator : NativeCaptureCoordinator
  pub started_sources : Source → Option SourceStarted
  pub committer : Option CatalogCaptureCommitter
  pub startup_sent : Bool
  pub stop_requested : Bool
  pub shutdown_sent : Bool
  pub shutdown_ack : Bool
  pub startup : List StartupMessage
  pub replies : List (SessionResult (Unit {0}))

-- `controls` are the messages that `try_recv` yields before it finds the channel empty, `next` the answer of
-- `next_event`, `new_id` to `opened` what is met when the committer is made, `sealing` and `after_commit` what is
-- met when it commits, and `shut_down` the answer of `shutdown`.
pub record Round : Type 0 where
  pub controls : List ControlMessage
  pub next : Result NativeCaptureTransportError (Option CaptureHeader)
  pub now : ℕ
  pub new_id : Source → String
  pub insert_all : List CaptureSourceRecord → Result String (Unit {0})
  pub opened : Result String (Unit {0})
  pub sealing : NativeChunkSealRequest → Result NativeChunkSealError AudioChunk
  pub after_commit : AudioChunk → Result String (Unit {0})
  pub shut_down : Reply

pub data Turn : Type 0 where
  continues : NativeCaptureWorker → Turn
  returns : NativeCaptureWorker → SessionResult (Unit {0}) → Turn

abbrev pub worker_of : Turn → NativeCaptureWorker
worker_of (continues w) = w
worker_of (returns w _) = w

-- What follows in the same round, unless the worker has returned.
abbrev pub then_do : Turn → (NativeCaptureWorker → Turn) → Turn
then_do (continues w) next = next w
then_do (returns w result) next = returns w result

-- `map_err(Into::into)`
abbrev pub session_result : {A : Type 0} → CoordinatorResult A → SessionResult A
session_result (ok a) = ok a
session_result (err e) = err (from_coordinator_error e)

abbrev answered : NativeCaptureWorker → Step (Unit {0}) → NativeCaptureWorker
answered w step = record w {
  coordinator = step.0;
  replies = w.replies ++ session_result step.1 ∷ [];
}

unfoldable pub handle_control : ControlMessage → NativeCaptureWorker → NativeCaptureWorker
handle_control (control_pause reply) w = answered w (pause reply w.coordinator)
handle_control (control_resume reply) w = answered w (resume reply w.coordinator)
handle_control (control_stop reply) w = record (answered w (stop reply w.coordinator)) {
  stop_requested = w.stop_requested || is_ok ((stop reply w.coordinator).1);
}

unfoldable pub handle_controls : List ControlMessage → NativeCaptureWorker → NativeCaptureWorker
handle_controls [] w = w
handle_controls (m ∷ ms) w = handle_controls ms (handle_control m w)

-- `startup_tx.send`, with and without the test of `startup_sent`.
abbrev pub send_startup : StartupMessage → NativeCaptureWorker → NativeCaptureWorker
send_startup message w = record w { startup = w.startup ++ message ∷ [] }

unfoldable pub fail_with : NativeCaptureSessionError → NativeCaptureWorker → Turn
fail_with e w = returns (if w.startup_sent then w else send_startup (err e) w) (err e)

abbrev pub has_started : (Source → Option SourceStarted) → Source → Bool
has_started started s = elim (started s) [ none ↦ false | some _ ↦ true ]

-- `len` of the map and of the set.
abbrev pub count_started : (Source → Option SourceStarted) → ℕ
count_started started = length (entries started)

abbrev pub count_enabled : List Source → ℕ
count_enabled enabled =
    length (if any (source_eq microphone) enabled then microphone ∷ [] else [])
    + length (if any (source_eq system_audio) enabled then system_audio ∷ [] else [])

-- The sources that have started, as the startup message has them.
abbrev pub started_values : (Source → Option SourceStarted) → List SourceStarted
started_values started = map (λ e. e.1) (entries started)

-- `min` of the host times.
abbrev pub earliest : List SourceStarted → Option ℕ
earliest [] = none
earliest (s ∷ ss) = elim (earliest ss) [
  | none ↦ some s.host_time
  | some t ↦ some (min s.host_time t)
]

abbrev pub has_committer : NativeCaptureWorker → Bool
has_committer w = elim w.committer [ none ↦ false | some _ ↦ true ]
