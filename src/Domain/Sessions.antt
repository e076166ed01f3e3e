-- ===== src/Domain/Sessions.antt =====
-- src-tauri/src/domain.rs: sessions that are asked to change their state again and again.
use life_sub.Common.{
  ℕ, ◌≡◌, refl, ◌∙◌, ◌⊎◌, inl, inr, true, false, List, [], ◌∷◌, String, Result, ok, err,
  is_some_and, Bool-cases,
}
use life_sub.Domain.{
  CaptureState, idle, recording, paused, stopped, CaptureSession, DomainError, new_session,
  is_valid_transition, is_stopped, transition,
}

-- A session that refuses a target stays as it is.
abbrev kept : CaptureSession → Result DomainError CaptureSession → CaptureSession
kept s (ok t) = t
kept s (err e) = s

-- The targets, each with the time at which it is asked for.
unfoldable pub transition_all : List (ℕ × CaptureState) → CaptureSession → CaptureSession
transition_all [] s = s
transition_all ((now, target) ∷ targets) s =
    transition_all targets (kept s (transition now target s))

-- A session has an end exactly if it is stopped.
abbrev pub EndsWhenStopped : CaptureSession → Type 0
EndsWhenStopped s = is_some_and (λ t. true) s.ended_at ≡ is_stopped s.state

from_stopped :
    (s target : CaptureState) → is_stopped s ≡ true → is_valid_transition s target ≡ false
from_stopped idle target h = cc
from_stopped recording target h = cc
from_stopped paused target h = cc
from_stopped stopped target h = refl

not_from_stopped :
    (s target : CaptureState) → is_valid_transition s target ≡ true → is_stopped s ≡ false
not_from_stopped idle target h = refl
not_from_stopped recording target h = refl
not_from_stopped paused target h = refl
not_from_stopped stopped target h = cc

step-EndsWhenStopped :
    (now : ℕ) (target : CaptureState) (s : CaptureSession)
    → EndsWhenStopped s
    → EndsWhenStopped (kept s (transition now target s))
unfolding transition
step-EndsWhenStopped now target s h = elim (Bool-cases (is_valid_transition s.state target)) [
  | inl v ↦ rw v (elim (Bool-cases (is_stopped target)) [
    | inl e ↦ rw e refl
    | inr e ↦ rw e (h ∙ not_from_stopped s.state target v)
  ])
  | inr v ↦ rw v h
]

final :
    (targets : List (ℕ × CaptureState)) (s : CaptureSession)
    → is_stopped s.state ≡ true
    → transition_all targets s ≡ s
unfolding transition_all transition
final [] s h = refl
final ((now, target) ∷ targets) s h = rw (from_stopped s.state target h) (final targets s h)

all-EndsWhenStopped :
    (targets : List (ℕ × CaptureState)) (s : CaptureSession)
    → EndsWhenStopped s
    → EndsWhenStopped (transition_all targets s)
unfolding transition_all
all-EndsWhenStopped [] s h = h
all-EndsWhenStopped ((now, target) ∷ targets) s h =
    all-EndsWhenStopped targets (kept s (transition now target s))
      (step-EndsWhenStopped now target s h)

-- Whatever states a new session is asked to enter, it has an end exactly if it is stopped, and once it is stopped
-- nothing that it is asked for changes it.
pub transition_all-new_session :
    (id title : String) (now : ℕ) (targets more : List (ℕ × CaptureState))
    → EndsWhenStopped (transition_all targets (new_session id title now))
      × ((is_stopped (transition_all targets (new_session id title now)).state ≡ false)
          ⊎ (transition_all more (transition_all targets (new_session id title now))
              ≡ transition_all targets (new_session id title now)))
unfolding new_session
transition_all-new_session id title now targets more = (
  all-EndsWhenStopped targets (new_session id title now) refl,
  elim (Bool-cases (is_stopped (transition_all targets (new_session id title now)).state)) [
    | inl e ↦ inr (final more (transition_all targets (new_session id title now)) e)
    | inr e ↦ inl e
  ],
)
