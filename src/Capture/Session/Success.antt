-- ===== src/Capture/Session/Success.antt =====
-- src-tauri/src/capture/session.rs: what a worker that returns without an error has seen.
use life_sub.Common.{
  ℕ, ◌≡◌, refl, ap, subst, ◌∙◌, inl, inr, Bool, true, false, not, Option, List, [], ◌∷◌, String, ok,
  err, arith, Bool-cases, any, all, All, >>=-eq-ok,
}
use life_sub.Capture.Protocol.Headers.{Source, microphone, source_eq}
use life_sub.Capture.Coordinator.{
  NativeCaptureCoordinator, NativeCaptureSourceRequest, stopped, sources_of, new, enabled_sources,
  all_enabled_sources_stopped,
}
use life_sub.Capture.Coordinator.Operations.{Reply}
use life_sub.Capture.Coordinator.Phases.{Call, call_preflight, call_start, run, run_all}
use life_sub.Capture.Coordinator.Reports.{is_stop_of, reports_stop, grows, run_all-Grows}
use life_sub.Capture.Coordinator.Ended.{Ended, run-Ended, run_all-Ended, new_starts, all-any}
use life_sub.Capture.Session.{SessionResult}
use life_sub.Capture.Session.Worker.{NativeCaptureWorker, Round, returns, worker_of}
use life_sub.Capture.Session.Rounds.{
  run_rounds, fresh_worker, start_up, coordinator_for, begin_worker,
}
use life_sub.Capture.Session.Calls.{is_control, AllowsRound, run_rounds-kept}
use life_sub.Capture.Session.Shutdown.{at_end, is_sound, run_rounds-is_sound}

-- In the round, the transport hands over the message that the source has stopped.
abbrev pub tells_stop : Source → Round → Bool
tells_stop s r = elim r.next [ err _ ↦ false | ok event ↦ is_stop_of s event ]

-- The coordinator that a worker has at the start of its loop.
abbrev started_from :
    (Source → Reply) → (List Source → Option String → Reply) → Option String → List Call
started_from preflight_reply start_reply uid =
    call_preflight preflight_reply ∷ call_start start_reply uid ∷ []

start_up-run_all :
    (preflight_reply : Source → Reply) (start_reply : List Source → Option String → Reply)
    (uid : Option String) (c : NativeCaptureCoordinator) (w : NativeCaptureWorker)
    → start_up preflight_reply start_reply uid c ≡ ok w
    → w ≡ fresh_worker (run_all (started_from preflight_reply start_reply uid) c)
unfolding start_up run_all run
start_up-run_all preflight_reply start_reply uid c w h = ground arith

-- What the coordinator has then.
start_up-fresh :
    (preflight_reply : Source → Reply) (start_reply : List Source → Option String → Reply)
    (requests : List NativeCaptureSourceRequest) (uid : Option String)
    (c : NativeCaptureCoordinator)
    → new requests ≡ ok c
    → let d = run_all (started_from preflight_reply start_reply uid) c in
      Ended d
      × ((s : Source) → d.stopped_enabled_sources s ≡ false)
      × (d.requested_sources ≡ requests)
unfolding Ended
start_up-fresh preflight_reply start_reply requests uid c is_new =
    let (is_requested, none_stopped, same) = new_starts requests c is_new in
    let calls = started_from preflight_reply start_reply uid in
    (
      run_all-Ended calls c (λ e. ground arith),
      (λ s. ground (arith, none_stopped s, run_all-Grows s calls c)),
      (run_all-Grows microphone calls c).1 ∙ same,
    )

silent-controls :
    (s : Source) (call : Call) → is_control call ≡ true → not (reports_stop s call) ≡ true
silent-controls s call h = ground arith

silent-rounds :
    (s : Source) (rs : List Round)
    → any (tells_stop s) rs ≡ false
    → All (AllowsRound (λ call. not (reports_stop s call))) rs
silent-rounds s [] h = tt
silent-rounds s (r ∷ rs) h =
    ((λ event next commit. ground arith), silent-rounds s rs (ground arith))

stays_out :
    (s : Source) (call : Call) (c : NativeCaptureCoordinator)
    → not (reports_stop s call) ≡ true
    → c.stopped_enabled_sources s ≡ false
    → ((run call c).0).stopped_enabled_sources s ≡ false
stays_out s call c quiet out = ground (arith, grows s call c)

module _ (session_id : String) (enabled : List Source) (uid : Option String)
    (add_milliseconds : ℕ → ℕ → ℕ) where
  -- A source that no round tells the end of is not put into the set of stopped sources.
  run_rounds-stopped :
      (s : Source) (rs : List Round) (w : NativeCaptureWorker)
      → any (tells_stop s) rs ≡ false
      → w.coordinator.stopped_enabled_sources s ≡ false
      → let turn = run_rounds session_id enabled uid add_milliseconds rs w in
        (worker_of turn).coordinator.stopped_enabled_sources s ≡ false
  run_rounds-stopped s rs w h k =
      run_rounds-kept (λ c. c.stopped_enabled_sources s ≡ false) (λ call. not (reports_stop s call))
        (silent-controls s) (stays_out s) session_id enabled uid add_milliseconds rs w
        (silent-rounds s rs h) k

coordinator_for-new :
    (requests : List NativeCaptureSourceRequest) (c : NativeCaptureCoordinator)
    → coordinator_for requests ≡ ok c
    → new requests ≡ ok c
coordinator_for-new requests c h = ground arith

at_end-parts :
    (w : NativeCaptureWorker)
    → at_end w ≡ true
    → (w.stop_requested ≡ true)
      × (w.shutdown_sent ≡ true)
      × (w.shutdown_ack ≡ true)
      × (w.coordinator.phase ≡ stopped)
at_end-parts w h = ground arith

everything : (rs : List Round) → All (AllowsRound (λ call. true)) rs
everything [] = tt
everything (r ∷ rs) = ((λ event next commit. refl), everything rs)

requests-kept :
    (requests : List NativeCaptureSourceRequest) (call : Call) (c : NativeCaptureCoordinator)
    → c.requested_sources ≡ requests
    → ((run call c).0).requested_sources ≡ requests
requests-kept requests call c e = (grows microphone call c).1 ∙ e

-- A worker whose coordinator is stopped in good order was told of the end of each of its sources.
all_told :
    (session_id : String) (uid : Option String) (add_milliseconds : ℕ → ℕ → ℕ)
    (requests : List NativeCaptureSourceRequest) (w : NativeCaptureWorker) (rs : List Round)
    (s : Source)
    → Ended w.coordinator
    → w.coordinator.stopped_enabled_sources s ≡ false
    → w.coordinator.requested_sources ≡ requests
    → (worker_of
        (run_rounds session_id (sources_of requests) uid add_milliseconds rs w)).coordinator.phase
      ≡ stopped
    → any (source_eq s) (sources_of requests) ≡ true
    → any (tells_stop s) rs ≡ true
unfolding Ended all_enabled_sources_stopped enabled_sources
all_told session_id uid add_milliseconds requests w rs s ended out same is_stopped is_enabled =
    let enabled = sources_of requests in
    let turn = run_rounds session_id enabled uid add_milliseconds rs w in
    let d = (worker_of turn).coordinator in
    let ended' =
      run_rounds-kept Ended (λ call. true) (λ call h. refl) (λ call c _ v. run-Ended call c v)
        session_id enabled uid add_milliseconds rs w (everything rs) ended is_stopped in
    let same' =
      run_rounds-kept (λ c. c.requested_sources ≡ requests) (λ call. true) (λ call h. refl)
        (λ call c _ e. requests-kept requests call c e) session_id enabled uid add_milliseconds rs w
        (everything rs) same in
    let is_in =
      all-any s d.stopped_enabled_sources enabled
        (subst (λ r. all d.stopped_enabled_sources (sources_of r) ≡ true) same' ended')
        is_enabled in
    elim (Bool-cases (any (tells_stop s) rs)) [
      | inl told ↦ told
      | inr untold ↦ ground (
        arith,
        is_in,
        run_rounds-stopped session_id enabled uid add_milliseconds s rs w untold out,
      )
    ]

pub begin_worker-fresh :
    (made : SessionResult (Unit {0})) (preflight_reply : Source → Reply)
    (start_reply : List Source → Option String → Reply) (requests : List NativeCaptureSourceRequest)
    (uid : Option String) (begun : NativeCaptureWorker)
    → begin_worker made preflight_reply start_reply requests uid ≡ ok begun
    → (c : NativeCaptureCoordinator) × (begun ≡ fresh_worker c)
unfolding begin_worker
begin_worker-fresh made preflight_reply start_reply requests uid begun begins =
    let (_, _, rest) = >>=-eq-ok made _ begins in
    let (c, _, up) =
      >>=-eq-ok (coordinator_for requests) (start_up preflight_reply start_reply uid) rest in
    (
      run_all (started_from preflight_reply start_reply uid) c,
      start_up-run_all preflight_reply start_reply uid c begun up,
    )

-- A capture whose worker has begun for some requests and returns from its loop without an error: the stop was
-- asked for and granted, the transport was asked for the shutdown and has acknowledged one, the coordinator is
-- stopped, and for each source that the requests enable, the transport has handed over the message that the
-- source has stopped.
pub succeeds_after_stops :
    (made : SessionResult (Unit {0})) (preflight_reply : Source → Reply)
    (start_reply : List Source → Option String → Reply) (requests : List NativeCaptureSourceRequest)
    (uid : Option String) (session_id : String) (add_milliseconds : ℕ → ℕ → ℕ)
    (begun w : NativeCaptureWorker) (rs : List Round) (s : Source)
    → begin_worker made preflight_reply start_reply requests uid ≡ ok begun
    → run_rounds session_id (sources_of requests) uid add_milliseconds rs begun ≡ returns w (ok tt)
    → any (source_eq s) (sources_of requests) ≡ true
    → (w.stop_requested ≡ true)
      × (w.shutdown_sent ≡ true)
      × (w.shutdown_ack ≡ true)
      × (w.coordinator.phase ≡ stopped)
      × (any (tells_stop s) rs ≡ true)
unfolding begin_worker
succeeds_after_stops made preflight_reply start_reply requests uid session_id add_milliseconds begun
      w rs s begins ends is_enabled =
    let (_, _, rest) = >>=-eq-ok made _ begins in
    let (c, is_new, up) =
      >>=-eq-ok (coordinator_for requests) (start_up preflight_reply start_reply uid) rest in
    let (ended, none_stopped, same) =
      start_up-fresh preflight_reply start_reply requests uid c
        (coordinator_for-new requests c is_new) in
    let fresh = run_all (started_from preflight_reply start_reply uid) c in
    let is_fresh = start_up-run_all preflight_reply start_reply uid c begun up in
    let enabled = sources_of requests in
    let ends' =
      subst (λ b. run_rounds session_id enabled uid add_milliseconds rs b ≡ returns w (ok tt))
        is_fresh ends in
    let sound = at_end-parts w (
      subst (λ turn. is_sound turn ≡ true) ends'
        (run_rounds-is_sound session_id enabled uid add_milliseconds rs (fresh_worker fresh)
          refl)) in
    let (stop, sent, ack, is_stopped) = sound in
    (
      stop,
      sent,
      ack,
      is_stopped,
      all_told session_id uid add_milliseconds requests (fresh_worker fresh) rs s ended
          (none_stopped s) same (ap (λ turn. (worker_of turn).coordinator.phase) ends' ∙ is_stopped)
          is_enabled,
    )
