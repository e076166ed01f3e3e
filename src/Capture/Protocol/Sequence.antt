-- ===== src/Capture/Protocol/Sequence.antt =====
-- src-tauri/src/capture/protocol.rs: `ProtocolValidator`, which watches the headers of one connection.
use life_sub.Common.{
  ℕ, ◌<◌, ◌≡◌, refl, ◌↔◌, inl, inr, Bool, true, false, not, Option, none, some, List, [], ◌∷◌, ok,
  ◌>>=◌, ◌>>◌, guard, leb, if◌then◌else◌, any, is_some_and, is_ok, arith, Result-cases, Bool-cases,
}
use life_sub.Capture.Protocol.Headers.{
  Source, microphone, system_audio, source_eq, CaptureHeader, hello, audio_frame, permission_state,
  source_started, microphone_devices, microphone_probe_result, level, chunk_sealed,
  source_interrupted, source_recovering, source_recovered, source_stopped, fatal_error,
  shutdown_ack, ProtocolResult, hello_required, hello_replay, non_monotonic_sequence,
}
use life_sub.Capture.Protocol.Validate.{validate_hello}

pub record ProtocolValidator : Type 0 where
  pub hello_seen : Bool
  pub last_sequence_by_source : Source → Option ℕ

unfoldable pub default_validator : ProtocolValidator
default_validator = record { hello_seen = false; last_sequence_by_source = λ _. none }

unfoldable pub observe : CaptureHeader → ProtocolValidator → ProtocolResult ProtocolValidator
observe (hello h) v = do
  guard (not v.hello_seen) hello_replay
  validate_hello h
  ok (record v { hello_seen = true })
observe (audio_frame f) v = do
  guard v.hello_seen hello_required
  guard
      (not (is_some_and (λ previous. leb f.sequence previous) (v.last_sequence_by_source f.source)))
      non_monotonic_sequence
  ok (record v {
    last_sequence_by_source =
        λ s. if source_eq f.source s then some f.sequence else v.last_sequence_by_source s;
  })
observe _ v = do guard v.hello_seen hello_required; ok v

-- The headers of a connection, one after the other.
unfoldable pub observe_all :
    List CaptureHeader → ProtocolValidator → ProtocolResult ProtocolValidator
observe_all [] v = ok v
observe_all (h ∷ hs) v = observe h v >>= observe_all hs

-- The sequence numbers of a source's frames, in the order in which they arrive.
abbrev pub sequences : Source → List CaptureHeader → List ℕ
sequences s [] = []
sequences s (audio_frame f ∷ hs) =
    if source_eq f.source s then f.sequence ∷ sequences s hs else sequences s hs
sequences s (_ ∷ hs) = sequences s hs

-- The numbers rise strictly, and from above `last`.
abbrev pub RiseFrom : Option ℕ → List ℕ → Type 0
RiseFrom last [] = Unit {0}
RiseFrom none (n ∷ ns) = RiseFrom (some n) ns
RiseFrom (some m) (n ∷ ns) = (m < n) × RiseFrom (some n) ns

abbrev pub is_hello : CaptureHeader → Bool
is_hello (hello h) = true
is_hello _ = false

-- What the validator demands of the headers after a valid greeting.
abbrev pub Continues : (Source → Option ℕ) → List CaptureHeader → Type 0
Continues last hs =
    (any is_hello hs ≡ false)
    × RiseFrom (last microphone) (sequences microphone hs)
    × RiseFrom (last system_audio) (sequences system_audio hs)

rise_cons :
    (last : Option ℕ) (n : ℕ) (ns : List ℕ)
    → RiseFrom last (n ∷ ns)
      ↔ ((not (is_some_and (λ p. leb n p) last) ≡ true) × RiseFrom (some n) ns)
rise_cons none n ns = ground arith
rise_cons (some m) n ns = ground arith

frame_iff :
    (source : Source) (n : ℕ) (last : Source → Option ℕ) (hs : List CaptureHeader)
    → ((not (is_some_and (λ p. leb n p) (last source)) ≡ true)
        × Continues (λ s. if source_eq source s then some n else last s) hs)
      ↔ ((any is_hello hs ≡ false)
          × RiseFrom (last microphone) (
              if source_eq source microphone
              then n ∷ sequences microphone hs
              else sequences microphone hs)
          × RiseFrom (last system_audio) (
              if source_eq source system_audio
              then n ∷ sequences system_audio hs
              else sequences system_audio hs))
frame_iff microphone n last hs =
    ground (arith, rise_cons (last microphone) n (sequences microphone hs))
frame_iff system_audio n last hs =
    ground (arith, rise_cons (last system_audio) n (sequences system_audio hs))

Continues-iff :
    (hs : List CaptureHeader) (v : ProtocolValidator)
    → v.hello_seen ≡ true
    → ((is_ok (observe_all hs v) ≡ true) ↔ Continues v.last_sequence_by_source hs)
unfolding observe observe_all
Continues-iff [] v seen = ground arith
Continues-iff (hello h ∷ hs) v seen = ground arith
Continues-iff (audio_frame f ∷ hs) v seen =
    let later =
      Continues-iff hs
        (record {
          hello_seen = true;
          last_sequence_by_source =
              λ s. if source_eq f.source s then some f.sequence else v.last_sequence_by_source s;
        })
        refl in
    let frame = frame_iff f.source f.sequence v.last_sequence_by_source hs in
    elim (Bool-cases
      (not (is_some_and (λ p. leb f.sequence p) (v.last_sequence_by_source f.source)))) [
        | inl fresh ↦
            rw (seen, fresh) ((λ h. frame.0 (fresh, later.0 h)), (λ h. later.1 ((frame.1 h).1)))
        | inr stale ↦ rw (seen, stale) ((λ h. cc), (λ h. let (fresh, _) = frame.1 h in cc))
      ]
Continues-iff (permission_state m ∷ hs) v seen = grind (arith, Continues-iff hs v seen)
Continues-iff (source_started m ∷ hs) v seen = grind (arith, Continues-iff hs v seen)
Continues-iff (microphone_devices m ∷ hs) v seen = grind (arith, Continues-iff hs v seen)
Continues-iff (microphone_probe_result m ∷ hs) v seen = grind (arith, Continues-iff hs v seen)
Continues-iff (level m ∷ hs) v seen = grind (arith, Continues-iff hs v seen)
Continues-iff (chunk_sealed m ∷ hs) v seen = grind (arith, Continues-iff hs v seen)
Continues-iff (source_interrupted m ∷ hs) v seen = grind (arith, Continues-iff hs v seen)
Continues-iff (source_recovering m ∷ hs) v seen = grind (arith, Continues-iff hs v seen)
Continues-iff (source_recovered m ∷ hs) v seen = grind (arith, Continues-iff hs v seen)
Continues-iff (source_stopped m ∷ hs) v seen = grind (arith, Continues-iff hs v seen)
Continues-iff (fatal_error m ∷ hs) v seen = grind (arith, Continues-iff hs v seen)
Continues-iff (shutdown_ack ∷ hs) v seen = grind (arith, Continues-iff hs v seen)

-- What the validator demands of a connection.
abbrev pub Accepted : List CaptureHeader → Type 0
Accepted [] = Unit {0}
Accepted (hello h ∷ hs) = (validate_hello h ≡ ok tt) × Continues (λ _. none) hs
Accepted (_ ∷ hs) = ⊥

-- A new validator accepts the headers of a connection, each in its turn, exactly when there are none, or the
-- first is a valid `hello`, no other is a `hello`, and for each of the two sources the sequence numbers of its
-- audio frames rise strictly.
pub observe_all_exact :
    (hs : List CaptureHeader) → (is_ok (observe_all hs default_validator) ≡ true) ↔ Accepted hs
unfolding observe observe_all default_validator
observe_all_exact [] = ground arith
observe_all_exact (hello h ∷ hs) =
    let rest =
      Continues-iff hs (record { hello_seen = true; last_sequence_by_source = λ _. none }) refl in
    elim (Result-cases (validate_hello h)) [
      | inl (_, valid) ↦ rw valid ((λ e. (refl, rest.0 e)), (λ a. rest.1 (a.1)))
      | inr (e, invalid) ↦ rw invalid ((λ h. cc), (λ a. cc))
    ]
observe_all_exact (audio_frame m ∷ hs) = ground arith
observe_all_exact (permission_state m ∷ hs) = ground arith
observe_all_exact (source_started m ∷ hs) = ground arith
observe_all_exact (microphone_devices m ∷ hs) = ground arith
observe_all_exact (microphone_probe_result m ∷ hs) = ground arith
observe_all_exact (level m ∷ hs) = ground arith
observe_all_exact (chunk_sealed m ∷ hs) = ground arith
observe_all_exact (source_interrupted m ∷ hs) = ground arith
observe_all_exact (source_recovering m ∷ hs) = ground arith
observe_all_exact (source_recovered m ∷ hs) = ground arith
observe_all_exact (source_stopped m ∷ hs) = ground arith
observe_all_exact (fatal_error m ∷ hs) = ground arith
observe_all_exact (shutdown_ack ∷ hs) = ground arith
