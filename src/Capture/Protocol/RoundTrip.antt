-- ===== src/Capture/Protocol/RoundTrip.antt =====
-- src-tauri/src/capture/protocol.rs: the decoder reads back what `encode_frame` has written.
use life_sub.Common.{
  String, ℕ, ◌<◌, ◌≤◌, ◌≡◌, refl, ◌∙◌, ap, true, ◌||◌, some, List, [], ◌∷◌, ◌++◌, ok, leb, ◌==◌,
  length, is_empty, arith, is_ok, all, length-append, take-append, drop-append,
}
use life_sub.Capture.Protocol.Headers.{
  max_header_bytes, max_payload_bytes, CaptureHeader, hello, microphone_devices, MicrophoneDevice,
  audio_frame, permission_state, source_started, microphone_probe_result, level, chunk_sealed,
  source_interrupted, source_recovering, source_recovered, source_stopped, fatal_error,
  shutdown_ack,
}
use life_sub.Capture.Protocol.Validate.{
  validate_microphone_device, validate_microphone_devices, validate_devices, validate_header,
  validate_audio_payload,
}
use life_sub.Capture.Protocol.Codec.{
  to_be_bytes, from_be_bytes, as_u32, StreamEnd, read_exact, read_length, default_decoder,
  deserialize_header, Json, encode_frame, parse_header, decode, is_audio_frame,
}

le→leb : (a b : ℕ) → a ≤ b → leb a b ≡ true
le→leb a b h = ground arith

-- A length is read back from its four bytes.
from_be_bytes-to_be_bytes : (n : ℕ) → n < 4294967296 → from_be_bytes (to_be_bytes n) ≡ n
unfolding from_be_bytes to_be_bytes
from_be_bytes-to_be_bytes n h = omega arith

read_exact-append :
    (xs ys : List ℕ) (ending : StreamEnd)
    → read_exact (length xs) (record { bytes = xs ++ ys; ending = ending })
      ≡ ok (xs, record { bytes = ys; ending = ending })
unfolding read_exact
read_exact-append xs ys ending =
    rw (take-append xs ys, drop-append xs ys, length-append xs ys) (ground arith)

read_length-append :
    (n : ℕ) (ys : List ℕ) (ending : StreamEnd)
    → n < 4294967296
    → read_length (record { bytes = to_be_bytes (as_u32 n) ++ ys; ending = ending })
      ≡ ok (n, record { bytes = ys; ending = ending })
unfolding read_length to_be_bytes
read_length-append n ys ending h =
    rw
      (
        read_exact-append (to_be_bytes (as_u32 n)) ys ending,
        from_be_bytes-to_be_bytes (as_u32 n) (omega arith),
      )
      (ap (λ m. ok (m, record { bytes = ys; ending = ending })) (omega arith))

devices-valid :
    (uids : List String) (ds : List MicrophoneDevice)
    → validate_devices uids ds ≡ ok tt
    → all (λ d. is_ok (validate_microphone_device d)) ds ≡ true
unfolding validate_devices
devices-valid uids [] h = refl
devices-valid uids (d ∷ ds) h = grind (arith, devices-valid (d.uid ∷ uids) ds)

validate-deserialize :
    (h : CaptureHeader) → validate_header h ≡ ok tt → deserialize_header h ≡ ok tt
unfolding validate_header deserialize_header validate_microphone_devices
validate-deserialize (hello h) e = e
validate-deserialize (microphone_devices ds) e = grind (arith, devices-valid [] ds)
validate-deserialize (audio_frame m) e = refl
validate-deserialize (permission_state m) e = refl
validate-deserialize (source_started m) e = refl
validate-deserialize (microphone_probe_result m) e = refl
validate-deserialize (level m) e = refl
validate-deserialize (chunk_sealed m) e = refl
validate-deserialize (source_interrupted m) e = refl
validate-deserialize (source_recovering m) e = refl
validate-deserialize (source_recovered m) e = refl
validate-deserialize (source_stopped m) e = refl
validate-deserialize (fatal_error m) e = refl
validate-deserialize (shutdown_ack) e = refl

-- What a frame that `encode_frame` has written is made of.
encode_frame-eq-ok :
    (json : Json CaptureHeader) (header : CaptureHeader) (payload bytes : List ℕ)
    → encode_frame json header payload ≡ ok bytes
    → (header_bytes : List ℕ) × (validate_header header ≡ ok tt)
      × (json.to_vec header ≡ some header_bytes)
      × (length header_bytes ≤ max_header_bytes)
      × (length payload ≤ max_payload_bytes)
      × ((is_audio_frame header || is_empty payload) ≡ true)
      × (validate_audio_payload header payload ≡ ok tt)
      × (bytes
          ≡ to_be_bytes (as_u32 (length header_bytes))
            ++ (header_bytes ++ (to_be_bytes (as_u32 (length payload)) ++ payload)))
unfolding encode_frame
encode_frame-eq-ok json header payload bytes h = ground arith

parse_header-ok :
    (json : Json CaptureHeader) (header : CaptureHeader) (bytes : List ℕ)
    → json.from_slice bytes ≡ some header
    → validate_header header ≡ ok tt
    → parse_header json bytes ≡ ok header
unfolding parse_header
parse_header-ok json header bytes e v = rw (e, validate-deserialize header v) refl

append_assoc : (xs ys zs : List ℕ) → (xs ++ ys) ++ zs ≡ xs ++ (ys ++ zs)
append_assoc [] ys zs = refl
append_assoc (x ∷ xs) ys zs = ap (◌∷◌ x) (append_assoc xs ys zs)

append_parts :
    (a h l p rest : List ℕ) → (a ++ (h ++ (l ++ p))) ++ rest ≡ a ++ (h ++ (l ++ (p ++ rest)))
append_parts a h l p rest =
    append_assoc a (h ++ (l ++ p)) rest
    ∙ ap (◌++◌ a) (append_assoc h (l ++ p) rest ∙ ap (◌++◌ h) (append_assoc l p rest))

empty-zero :
    (h : CaptureHeader) (xs : List ℕ)
    → (is_audio_frame h || is_empty xs) ≡ true
    → (is_audio_frame h || length xs == 0) ≡ true
empty-zero h [] e = ground arith
empty-zero h (x ∷ xs) e = ground arith

-- The decoder of the helper's stream reads back the header and the payload of every frame that `encode_frame`
-- has written, and leaves the bytes that follow it, where the JSON of that header is read back as that header.
pub decode-encode_frame :
    (json : Json CaptureHeader) (header : CaptureHeader) (payload bytes rest : List ℕ)
    (ending : StreamEnd)
    → ((bs : List ℕ) → json.to_vec header ≡ some bs → json.from_slice bs ≡ some header)
    → encode_frame json header payload ≡ ok bytes
    → decode json default_decoder (record { bytes = bytes ++ rest; ending = ending })
      ≡ ok (record { header = header; payload = payload }, record { bytes = rest; ending = ending })
unfolding decode default_decoder
decode-encode_frame json header payload bytes rest ending reads written =
    let (hb, valid, json_of, small, small', kind, audio, e) =
      encode_frame-eq-ok json header payload bytes written in
    let tail = to_be_bytes (as_u32 (length payload)) ++ (payload ++ rest) in
    let split : bytes ++ rest ≡ to_be_bytes (as_u32 (length hb)) ++ (hb ++ tail) =
      ap (λ m. m ++ rest) e
      ∙ append_parts (to_be_bytes (as_u32 (length hb))) hb (to_be_bytes (as_u32 (length payload)))
          payload rest in
    rw
      (
        split,
        read_length-append (length hb) (hb ++ tail) ending (omega arith),
        le→leb (length hb) max_header_bytes small,
        read_exact-append hb tail ending,
        parse_header-ok json header hb (reads hb json_of) valid,
        valid,
        read_length-append (length payload) (payload ++ rest) ending (omega arith),
        le→leb (length payload) max_payload_bytes small',
        empty-zero header payload kind,
        read_exact-append payload rest ending,
        audio,
      )
      refl
