-- ===== src/Capture/Session/Ends.antt =====
-- src-tauri/src/capture/session.rs: how the worker ends.
use life_sub.Common.{
  ℕ, ◌≡◌, refl, sym, ap, subst, Bool, true, false, Option, some, List, String, Result, ok, err,
  is_ok, arith,
}
use life_sub.Capture.Protocol.Headers.{Source, CaptureHeader, SourceStarted}
use life_sub.Capture.Coordinator.{
  NativeCaptureTransportError, NativeCaptureDrainOutcome, CoordinatorResult, insert,
}
use life_sub.Capture.Coordinator.Phases.{call_handle_event, run, is_terminal, run_terminal}
use life_sub.Capture.Session.{NativeCaptureSessionError}
use life_sub.Capture.Session.Worker.{
  NativeCaptureWorker, Round, Turn, continues, returns, worker_of, then_do, fail_with,
}
use life_sub.Capture.Session.Rounds.{
  make_committer, on_started, before_event, commit_with, on_event, settle_event, take_event, round,
}
use life_sub.Capture.Session.Calls.{controls-kept, before_event-by, before_event-coordinator}

-- The worker has returned an error.
abbrev pub has_failed : Turn → Bool
has_failed (returns w (err e)) = true
has_failed _ = false

abbrev has_succeeded : Turn → Bool
has_succeeded (returns w (ok _)) = true
has_succeeded _ = false

fail_with-fails :
    (e : NativeCaptureSessionError) (w : NativeCaptureWorker) → has_failed (fail_with e w) ≡ true
unfolding fail_with
fail_with-fails e w = refl

settle_event-fails :
    (r : Round) (w : NativeCaptureWorker) (outcome : CoordinatorResult NativeCaptureDrainOutcome)
    → is_ok outcome ≡ false
    → has_failed (settle_event r w outcome) ≡ true
unfolding settle_event
settle_event-fails r w (err e) h = fail_with-fails _ w
settle_event-fails r w (ok outcome) h = cc

on_event-fails :
    (add_milliseconds : ℕ → ℕ → ℕ) (r : Round) (event : Option CaptureHeader)
    (w : NativeCaptureWorker)
    → is_terminal w.coordinator.phase ≡ true
    → has_failed (on_event add_milliseconds r event w) ≡ true
unfolding on_event run
on_event-fails add_milliseconds r event w h = settle_event-fails r _ _ (
    ap (λ x. x.1)
      (run_terminal (call_handle_event (commit_with add_milliseconds r w.committer) event)
        w.coordinator h))

make_committer-succeeds :
    (session_id : String) (r : Round) (w : NativeCaptureWorker)
    → has_succeeded (make_committer session_id r w) ≡ false
unfolding make_committer
make_committer-succeeds session_id r w = ground arith

module _ (session_id : String) (enabled : List Source) (uid : Option String) where
  on_started-succeeds :
      (r : Round) (started : SourceStarted) (w : NativeCaptureWorker)
      → has_succeeded (on_started session_id enabled uid r started w) ≡ false
  unfolding on_started fail_with
  on_started-succeeds r started w = ground (
    arith,
    make_committer-succeeds session_id r
        (record w { started_sources = insert started.source (some started) w.started_sources }),
  )

  before_event-succeeds :
      (r : Round) (event : Option CaptureHeader) (w : NativeCaptureWorker)
      → has_succeeded (before_event session_id enabled uid r event w) ≡ false
  unfolding fail_with
  before_event-succeeds r event w =
      before_event-by session_id enabled uid (λ turn. has_succeeded turn ≡ false) r event w
        (λ started. on_started-succeeds r started w) refl (λ e. refl) refl

  module _ (add_milliseconds : ℕ → ℕ → ℕ) where
    then_do-fails :
        (r : Round) (event : Option CaptureHeader) (turn : Turn)
        → has_succeeded turn ≡ false
        → is_terminal ((worker_of turn).coordinator).phase ≡ true
        → has_failed (then_do turn (on_event add_milliseconds r event)) ≡ true
    then_do-fails r event (continues w) h k = on_event-fails add_milliseconds r event w k
    then_do-fails r event (returns w (err e)) h k = refl
    then_do-fails r event (returns w (ok _)) h k = cc

    take_event-fails :
        (r : Round) (next : Result NativeCaptureTransportError (Option CaptureHeader))
        (w : NativeCaptureWorker)
        → is_terminal w.coordinator.phase ≡ true
        → has_failed (take_event session_id enabled uid add_milliseconds r next w) ≡ true
    unfolding take_event
    take_event-fails r (err e) w h = fail_with-fails _ w
    take_event-fails r (ok event) w h =
        then_do-fails r event (before_event session_id enabled uid r event w)
          (before_event-succeeds r event w)
          (subst (λ c. is_terminal c.phase ≡ true)
            (sym (before_event-coordinator session_id enabled uid r event w)) h)

    -- A round of a worker whose coordinator is stopped or has failed ends in an error.
    pub round-fails :
        (r : Round) (w : NativeCaptureWorker)
        → is_terminal w.coordinator.phase ≡ true
        → has_failed (round session_id enabled uid add_milliseconds r w) ≡ true
    unfolding round
    round-fails r w h = take_event-fails r r.next _ (
        controls-kept (λ c. is_terminal c.phase ≡ true) (λ _. true) (λ call k. refl)
          (λ call c _ k. subst (λ x. is_terminal x.0.phase ≡ true) (sym (run_terminal call c k)) k)
          session_id enabled uid add_milliseconds r.controls w h)
