-- ===== src/Capture/Session/Reported.antt =====
-- src-tauri/src/capture/session.rs: what the status of a capture that has started reports.
use life_sub.Common.{
  ℕ, ◌≡◌, refl, sym, ap, subst, ◌∙◌, Bool, true, false, not, ◌&&◌, ◌||◌, Option, none, some, List,
  [], ◌∷◌, String, ok, err, arith, any, all, is_some_and, str_eq, map, >>=-eq-ok,
}
use life_sub.Capture.Protocol.Headers.{Source, microphone, source_eq, SourceStarted}
use life_sub.Capture.Coordinator.{sources_of}
use life_sub.Capture.Session.{
  NativeCaptureMode, smart, mic_only, system_only, SessionResult, requests_for_mode, selected_text,
  validate_microphone_selection,
}
use life_sub.Capture.Session.Worker.{StartupMessage, Turn, worker_of}
use life_sub.Capture.Session.Rounds.{run_rounds}
use life_sub.Capture.Session.Startup.{is_wanted, serves, is_answer, answers_once}
use life_sub.Capture.Session.Success.{begin_worker-fresh}
use life_sub.Capture.Session.Start.{
  start_status, NativeCaptureSession, NativeCaptureStartStatus, NativeCaptureSourceStatus,
  source_status, StartAnswers, received, run_worker, check_start, finish_start, spawn_worker,
  start_session, is_session_running,
}

-- The microphone of a status is the selected one.
abbrev pub has_device : Option String → NativeCaptureSourceStatus → Bool
has_device uid status =
    not (source_eq status.source microphone)
    || is_some_and (λ selected. str_eq status.device_id selected) uid

selection_of_mode :
    (mode : NativeCaptureMode) (uid selected : Option String)
    → validate_microphone_selection mode uid ≡ ok selected
    → (any (source_eq microphone) (sources_of (requests_for_mode mode)) ≡ true
        → selected ≡ selected_text uid)
      × (any (source_eq microphone) (sources_of (requests_for_mode mode)) ≡ false
          → selected_text uid ≡ none)
unfolding validate_microphone_selection requests_for_mode
selection_of_mode smart uid selected h = ground arith
selection_of_mode mic_only uid selected h = ground arith
selection_of_mode system_only uid selected h = ground arith

-- A source of the status is enabled, and a microphone is the selected one.
abbrev pub is_reported : List Source → Option String → NativeCaptureSourceStatus → Bool
is_reported enabled uid status = any (source_eq status.source) enabled && has_device uid status

wanted_reported :
    (session_id : String) (mode : NativeCaptureMode) (uid selected : Option String)
    (started : List SourceStarted)
    → validate_microphone_selection mode uid ≡ ok selected
    → all (is_wanted session_id (sources_of (requests_for_mode mode)) selected) started ≡ true
    → all
        (is_reported (sources_of (requests_for_mode mode)) (selected_text uid))
        (map source_status started)
      ≡ true
unfolding validate_microphone_selection requests_for_mode
wanted_reported session_id mode uid selected [] h k = refl
wanted_reported session_id smart uid selected (m ∷ ms) h k =
    ground (arith, wanted_reported session_id smart uid selected ms h)
wanted_reported session_id mic_only uid selected (m ∷ ms) h k =
    ground (arith, wanted_reported session_id mic_only uid selected ms h)
wanted_reported session_id system_only uid selected (m ∷ ms) h k =
    ground (arith, wanted_reported session_id system_only uid selected ms h)

any-map :
    (s : Source) (started : List SourceStarted)
    → any (λ x. source_eq s x.source) (map source_status started)
      ≡ any (λ m. source_eq s m.source) started
any-map s [] = refl
any-map s (m ∷ ms) = ap (λ b. source_eq s m.source || b) (any-map s ms)

all-any-map :
    (ss : List Source) (started : List SourceStarted)
    → all (λ s. any (λ x. source_eq s x.source) (map source_status started)) ss
      ≡ all (λ s. any (λ m. source_eq s m.source) started) ss
all-any-map [] started = refl
all-any-map (s ∷ ss) started = rw (any-map s started, all-any-map ss started) refl

module _ (session_id : String) (enabled : List Source) (uid : Option String) where
  received-serves :
      (turn : Turn) (started : List SourceStarted)
      → is_answer session_id enabled uid (worker_of turn).startup ≡ true
      → received (ok turn) ≡ some (ok started)
      → serves session_id enabled uid started ≡ true
  received-serves turn started h k = ground arith

ok_injective : {a b : Turn} → ◌≡◌ {A = SessionResult Turn} (ok a) (ok b) → a ≡ b
ok_injective h = cc

&&-parts : {a b : Bool} → (a && b) ≡ true → (a ≡ true) × (b ≡ true)
&&-parts h = ground arith

module _ (add_milliseconds : ℕ → ℕ → ℕ) (answers : StartAnswers) (session_id : String)
    (mode : NativeCaptureMode) where
  check_start-ok :
      (uid selected : Option String) (session : NativeCaptureSession)
      → check_start add_milliseconds answers mode uid session ≡ ok selected
      → (is_session_running session ≡ false)
        × (validate_microphone_selection mode uid ≡ ok selected)
  unfolding check_start
  check_start-ok uid selected session h = ground arith

  finish_start-ok :
      (worker : SessionResult Turn) (session session' : NativeCaptureSession)
      (message : Option StartupMessage) (status : NativeCaptureStartStatus)
      → finish_start add_milliseconds session_id mode worker session message
        ≡ some (session', ok status)
      → (started : List SourceStarted) × (message ≡ some (ok started))
        × (status ≡ start_status add_milliseconds session_id mode started)
  unfolding finish_start
  finish_start-ok worker session session' none status h = cc
  finish_start-ok worker session session' (some (err e)) status h = cc
  finish_start-ok worker session session' (some (ok started)) status h =
      (started, refl, ground arith)

  received-ok :
      (worker : SessionResult Turn) (started : List SourceStarted)
      → received worker ≡ some (ok started)
      → (turn : Turn) × (worker ≡ ok turn)
  received-ok (ok turn) started h = (turn, refl)
  received-ok (err e) started h = cc

  run_worker-is_answer :
      (selected : Option String) (turn : Turn)
      → run_worker add_milliseconds answers session_id mode selected ≡ ok turn
      → is_answer session_id (sources_of (requests_for_mode mode)) selected (worker_of turn).startup
        ≡ true
  unfolding run_worker
  run_worker-is_answer selected turn h =
      let enabled = sources_of (requests_for_mode mode) in
      let (begun, begins, runs) = >>=-eq-ok _ _ h in
      let (c, is_fresh) =
        begin_worker-fresh answers.made answers.preflight_reply answers.start_reply
          (requests_for_mode mode) selected begun begins in
      subst (λ x. is_answer session_id enabled selected (worker_of x).startup ≡ true)
        (ok_injective runs)
        (subst
          (λ b.
            is_answer session_id enabled selected
              (worker_of
                (run_rounds session_id enabled selected add_milliseconds answers.rounds b)).startup
            ≡ true)
          (sym is_fresh)
          (answers_once session_id enabled selected add_milliseconds answers.rounds c))

  abbrev Reports : Option String → NativeCaptureSession → NativeCaptureStartStatus → Type 0
  Reports uid session status =
      let enabled = sources_of (requests_for_mode mode) in
      (is_session_running session ≡ false)
      × (status.enabled_sources ≡ enabled)
      × (all (is_reported enabled (selected_text uid)) status.sources ≡ true)
      × (all (λ s. any (λ x. source_eq s x.source) status.sources) enabled ≡ true)

  spawn_worker-Reports :
      (uid : Option String) (session session' : NativeCaptureSession)
      (checked : SessionResult (Option String)) (status : NativeCaptureStartStatus)
      → check_start add_milliseconds answers mode uid session ≡ checked
      → spawn_worker add_milliseconds answers session_id mode session checked
        ≡ some (session', ok status)
      → Reports uid session status
  unfolding spawn_worker
  spawn_worker-Reports uid session session' (err e) status is_checked h = cc
  spawn_worker-Reports uid session session' (ok selected) status is_checked h =
      let enabled = sources_of (requests_for_mode mode) in
      let worker = run_worker add_milliseconds answers session_id mode selected in
      let (idle, valid) = check_start-ok uid selected session is_checked in
      let (started, got, is_status) =
        finish_start-ok worker session session' (received worker) status h in
      let (turn, ran) = received-ok worker started got in
      let served =
        received-serves session_id enabled selected turn started
          (run_worker-is_answer selected turn ran) (ap received (sym ran) ∙ got) in
      let (all_wanted, all_there) = &&-parts served in
      subst (Reports uid session) (sym is_status) (
        idle,
        refl,
        wanted_reported session_id mode uid selected started valid all_wanted,
        all-any-map enabled started ∙ all_there,
      )

-- When a start succeeds, then no capture was running, and the status names the sources of the mode and reports
-- on them: every source of it is one of the mode's, a microphone has the selected device, as the text of the
-- selection without white space around it, and every source of the mode is reported.
pub start_session_reports :
    (add_milliseconds : ℕ → ℕ → ℕ) (answers : StartAnswers) (session_id : String)
    (mode : NativeCaptureMode) (uid : Option String) (session session' : NativeCaptureSession)
    (status : NativeCaptureStartStatus)
    → start_session add_milliseconds answers session_id mode uid session
      ≡ some (session', ok status)
    → let enabled = sources_of (requests_for_mode mode) in
      (is_session_running session ≡ false)
      × (status.enabled_sources ≡ enabled)
      × (all (is_reported enabled (selected_text uid)) status.sources ≡ true)
      × (all (λ s. any (λ x. source_eq s x.source) status.sources) enabled ≡ true)
unfolding start_session
start_session_reports add_milliseconds answers session_id mode uid session session' status starts =
    spawn_worker-Reports add_milliseconds answers session_id mode uid session session' _ status refl
      starts
