-- ===== src/Capture/Session/Startup.antt =====
-- src-tauri/src/capture/session.rs: what the worker hands to the thread that waits for the start of a capture.
use life_sub.Common.{
  ℕ, ◌≡◌, refl, Bool, true, false, not, ◌&&◌, ◌||◌, Option, none, some, List, [], ◌∷◌, String,
  Result, ok, err, arith, any, all, ◌==◌, is_empty,
}
use life_sub.Capture.Protocol.Headers.{
  Source, microphone, system_audio, source_eq, CaptureHeader, SourceStarted,
}
use life_sub.Capture.Coordinator.{
  NativeCaptureCoordinator, NativeCaptureTransportError, NativeCaptureDrainOutcome,
  CoordinatorResult, insert,
}
use life_sub.Capture.Committer.{CatalogCaptureCommitter}
use life_sub.Capture.Session.{NativeCaptureSessionError}
use life_sub.Capture.Session.Worker.{
  NativeCaptureWorker, ControlMessage, control_pause, control_resume, control_stop, StartupMessage,
  Round, Turn, continues, returns, worker_of, then_do, handle_control, handle_controls, fail_with,
  has_committer, started_values, count_started, count_enabled,
}
use life_sub.Capture.Session.Rounds.{
  make_committer, is_other_device, on_started, before_event, committer_after, after_event, on_event,
  settle_event, take_event, round, run_rounds, fresh_worker,
}
use life_sub.Capture.Session.Calls.{before_event-by}

all-by_source :
    (p : Source → Bool) (ss : List Source)
    → (any (source_eq microphone) ss ≡ true → p microphone ≡ true)
    → (any (source_eq system_audio) ss ≡ true → p system_audio ≡ true)
    → all p ss ≡ true
all-by_source p [] f g = refl
all-by_source p (microphone ∷ ss) f g = ground (arith, all-by_source p ss (λ h. f (ground arith)) g)
all-by_source p (system_audio ∷ ss) f g =
    ground (arith, all-by_source p ss f (λ h. g (ground arith)))

module _ (session_id : String) (enabled : List Source) (uid : Option String) where
  -- Every source of a startup message is enabled, and the microphone is the selected one.
  abbrev pub is_wanted : SourceStarted → Bool
  is_wanted m = any (source_eq m.source) enabled && not (is_other_device session_id enabled uid m)

  -- Every source of the list is wanted, and every enabled source is in it.
  abbrev pub serves : List SourceStarted → Bool
  serves started =
      all is_wanted started && all (λ s. any (λ m. source_eq s m.source) started) enabled

  -- At most one message, which has the enabled sources or is an error.
  abbrev pub is_answer : List StartupMessage → Bool
  is_answer [] = true
  is_answer (ok started ∷ []) = serves started
  is_answer (err _ ∷ []) = true
  is_answer (_ ∷ _ ∷ _) = false

  abbrev fits : Source → Option SourceStarted → Bool
  fits s none = true
  fits s (some m) = source_eq s m.source && is_wanted m

  abbrev all_fit : (Source → Option SourceStarted) → Bool
  all_fit started = fits microphone (started microphone) && fits system_audio (started system_audio)

  started_values-serves :
      (started : Source → Option SourceStarted)
      → all_fit started ≡ true
      → (count_started started == count_enabled enabled) ≡ true
      → serves (started_values started) ≡ true
  started_values-serves started fit same = ground (
    arith,
    all-by_source (λ s. any (λ m. source_eq s m.source) (started_values started)) enabled
        (λ h. ground arith) (λ h. ground arith),
  )

  abbrev is_good : NativeCaptureWorker → Bool
  is_good w =
      all_fit w.started_sources
      && is_answer w.startup
      && (w.startup_sent || is_empty w.startup && not (has_committer w))

  abbrev is_good_turn : Turn → Bool
  is_good_turn (continues w) = is_good w
  is_good_turn (returns w _) = is_answer w.startup

  fail_with-is_good :
      (e : NativeCaptureSessionError) (w : NativeCaptureWorker)
      → is_good w ≡ true
      → is_good_turn (fail_with e w) ≡ true
  unfolding fail_with
  fail_with-is_good e w h = ground arith

  make_committer-is_good :
      (r : Round) (w : NativeCaptureWorker)
      → is_good w ≡ true
      → (count_started w.started_sources == count_enabled enabled) ≡ true
      → is_good_turn (make_committer session_id r w) ≡ true
  unfolding make_committer
  make_committer-is_good r w h same =
      ground (arith, started_values-serves w.started_sources (ground arith) same)

  on_started-is_good :
      (r : Round) (started : SourceStarted) (w : NativeCaptureWorker)
      → is_good w ≡ true
      → is_good_turn (on_started session_id enabled uid r started w) ≡ true
  unfolding on_started fail_with
  on_started-is_good r started w h = ground (
    arith,
    make_committer-is_good r
        (record w { started_sources = insert started.source (some started) w.started_sources }),
  )

  before_event-is_good :
      (r : Round) (event : Option CaptureHeader) (w : NativeCaptureWorker)
      → is_good w ≡ true
      → is_good_turn (before_event session_id enabled uid r event w) ≡ true
  before_event-is_good r event w h =
      before_event-by session_id enabled uid (λ turn. is_good_turn turn ≡ true) r event w
        (λ started. on_started-is_good r started w h) h (λ e. fail_with-is_good e w h) h

  after_event-is_good :
      (r : Round) (outcome : NativeCaptureDrainOutcome) (w : NativeCaptureWorker)
      → is_good w ≡ true
      → is_good_turn (after_event r outcome w) ≡ true
  unfolding after_event
  after_event-is_good r outcome w h = ground arith

  settle_event-is_good :
      (r : Round) (outcome : CoordinatorResult NativeCaptureDrainOutcome) (w : NativeCaptureWorker)
      → is_good w ≡ true
      → is_good_turn (settle_event r w outcome) ≡ true
  unfolding settle_event
  settle_event-is_good r (err e) w h = fail_with-is_good _ w h
  settle_event-is_good r (ok outcome) w h = after_event-is_good r outcome w h

  control-is_good :
      (m : ControlMessage) (w : NativeCaptureWorker)
      → is_good w ≡ true
      → is_good (handle_control m w) ≡ true
  unfolding handle_control
  control-is_good (control_pause reply) w h = h
  control-is_good (control_resume reply) w h = h
  control-is_good (control_stop reply) w h = h

  controls-is_good :
      (ms : List ControlMessage) (w : NativeCaptureWorker)
      → is_good w ≡ true
      → is_good (handle_controls ms w) ≡ true
  unfolding handle_controls
  controls-is_good [] w h = h
  controls-is_good (m ∷ ms) w h = controls-is_good ms (handle_control m w) (control-is_good m w h)

  then_do-is_good :
      (turn : Turn) (next : NativeCaptureWorker → Turn)
      → is_good_turn turn ≡ true
      → ((w : NativeCaptureWorker) → is_good w ≡ true → is_good_turn (next w) ≡ true)
      → is_good_turn (then_do turn next) ≡ true
  then_do-is_good (continues w) next h f = f w h
  then_do-is_good (returns w result) next h f = h

  module _ (add_milliseconds : ℕ → ℕ → ℕ) where
    has_committer-after :
        (r : Round) (c : Option CatalogCaptureCommitter) (event : Option CaptureHeader)
        → c ≡ none
        → committer_after add_milliseconds r c event ≡ none
    unfolding committer_after
    has_committer-after r none event h = refl
    has_committer-after r (some c) event h = cc

    on_event-is_good :
        (r : Round) (event : Option CaptureHeader) (w : NativeCaptureWorker)
        → is_good w ≡ true
        → is_good_turn (on_event add_milliseconds r event w) ≡ true
    unfolding on_event
    on_event-is_good r event w h =
        settle_event-is_good r _ _ (ground (arith, has_committer-after r w.committer event))

    take_event-is_good :
        (r : Round) (next : Result NativeCaptureTransportError (Option CaptureHeader))
        (w : NativeCaptureWorker)
        → is_good w ≡ true
        → is_good_turn (take_event session_id enabled uid add_milliseconds r next w) ≡ true
    unfolding take_event
    take_event-is_good r (err e) w h = fail_with-is_good _ w h
    take_event-is_good r (ok event) w h =
        then_do-is_good (before_event session_id enabled uid r event w) _
          (before_event-is_good r event w h) (on_event-is_good r event)

    run_rounds-is_good :
        (rs : List Round) (w : NativeCaptureWorker)
        → is_good w ≡ true
        → is_good_turn (run_rounds session_id enabled uid add_milliseconds rs w) ≡ true
    unfolding run_rounds round
    run_rounds-is_good [] w h = h
    run_rounds-is_good (r ∷ rs) w h =
        then_do-is_good (round session_id enabled uid add_milliseconds r w) _
          (take_event-is_good r r.next _ (controls-is_good r.controls w h)) (run_rounds-is_good rs)

    good_turn-is_answer :
        (turn : Turn) → is_good_turn turn ≡ true → is_answer (worker_of turn).startup ≡ true
    good_turn-is_answer turn h = ground arith

    -- Whatever rounds a worker that begins runs through, whatever the answers are, it hands the waiting thread
    -- at most one message: an error, or the sources that have started, in which every source is enabled, the
    -- microphone has the selected device if one is selected, and every enabled source is there.
    pub answers_once :
        (rs : List Round) (c : NativeCaptureCoordinator)
        → is_answer (
            (worker_of
              (run_rounds session_id enabled uid add_milliseconds rs (fresh_worker c))).startup)
          ≡ true
    answers_once rs c =
        good_turn-is_answer (run_rounds session_id enabled uid add_milliseconds rs (fresh_worker c))
          (run_rounds-is_good rs (fresh_worker c) refl)
