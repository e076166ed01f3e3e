-- ===== src/Capture/Protocol/Codec.antt =====
-- src-tauri/src/capture/protocol.rs: frames on the wire. A frame is the length of its header in four
-- bytes, the header's JSON, the length of its payload in four bytes, and the payload.
use life_sub.Common.{
  ℕ, ◌+◌, ◌*◌, ◌/◌, ◌%◌, Bool, true, false, ◌||◌, Option, List, [], ◌∷◌, ◌++◌, ok, err, ◌>>=◌, ◌>>◌,
  guard, ok_or, leb, ◌==◌, if◌then◌else◌, length, is_empty, take, drop, is_ok, all, checked_add,
}
use life_sub.Capture.Protocol.Headers.{
  max_header_bytes, max_payload_bytes, CaptureCommand, CaptureHeader, hello, microphone_devices,
  audio_frame, CaptureFrame, ProtocolResult, header_too_large, payload_too_large, truncated_frame,
  frame_read_timeout, invalid_header, unexpected_payload,
}
use life_sub.Capture.Protocol.Validate.{
  validate_command, validate_hello, validate_microphone_device, validate_microphone_devices,
  validate_header, validate_audio_payload,
}

-- `to_be_bytes` and `from_be_bytes` of a `u32`.
unfoldable pub to_be_bytes : ℕ → List ℕ
to_be_bytes n = n / 16777216 % 256 ∷ n / 65536 % 256 ∷ n / 256 % 256 ∷ n % 256 ∷ []

unfoldable pub from_be_bytes : List ℕ → ℕ
from_be_bytes (a ∷ b ∷ c ∷ d ∷ []) = a * 16777216 + b * 65536 + c * 256 + d
from_be_bytes _ = 0

-- `as u32`
abbrev pub as_u32 : ℕ → ℕ
as_u32 n = n % 4294967296

abbrev pub is_audio_frame : CaptureHeader → Bool
is_audio_frame (audio_frame f) = true
is_audio_frame _ = false

-- What the bytes of a stream end with: the end of the file or another error, or a read that times out.
pub data StreamEnd : Type 0 where
  closed timed_out : StreamEnd

pub record Reader : Type 0 where
  pub bytes : List ℕ
  pub ending : StreamEnd

abbrev pub end_error : StreamEnd → ProtocolResult (List ℕ × Reader)
end_error closed = err truncated_frame
end_error timed_out = err frame_read_timeout

unfoldable pub read_exact : ℕ → Reader → ProtocolResult (List ℕ × Reader)
read_exact n r =
    if leb n (length r.bytes)
    then ok (take n r.bytes, record r { bytes = drop n r.bytes })
    else end_error r.ending

unfoldable pub read_length : Reader → ProtocolResult (ℕ × Reader)
read_length r = do read ← read_exact 4 r; ok (from_be_bytes read.0, read.1)

pub record FrameDecoder : Type 0 where
  pub max_header_bytes : ℕ
  pub max_payload_bytes : ℕ

unfoldable pub default_decoder : FrameDecoder
default_decoder = record {
  max_header_bytes = max_header_bytes;
  max_payload_bytes = max_payload_bytes;
}

-- The checks that `Deserialize` makes of a header that is otherwise well formed.
unfoldable pub deserialize_header : CaptureHeader → ProtocolResult (Unit {0})
deserialize_header (hello h) = validate_hello h
deserialize_header (microphone_devices ds) = do
  guard (all (λ d. is_ok (validate_microphone_device d)) ds) invalid_header
  validate_microphone_devices ds
deserialize_header _ = ok tt

-- `serde_json_canonicalizer::to_vec` and `serde_json::from_slice`, before the checks above.
pub record Json (A : Type 0) : Type 0 where
  pub to_vec : A → Option (List ℕ)
  pub from_slice : List ℕ → Option A

unfoldable pub encode_frame : Json CaptureHeader → CaptureHeader → List ℕ → ProtocolResult (List ℕ)
encode_frame json header payload = do
  validate_header header
  header_bytes ← ok_or (json.to_vec header) invalid_header
  guard (leb (length header_bytes) max_header_bytes) header_too_large
  guard (leb (length payload) max_payload_bytes) payload_too_large
  guard (is_audio_frame header || is_empty payload) unexpected_payload
  validate_audio_payload header payload
  capacity ← ok_or (checked_add 8 (length header_bytes)) payload_too_large
  _ ← ok_or (checked_add capacity (length payload)) payload_too_large
  ok (
      to_be_bytes (as_u32 (length header_bytes))
      ++ (header_bytes ++ (to_be_bytes (as_u32 (length payload)) ++ payload)))

unfoldable pub encode_command : Json CaptureCommand → CaptureCommand → ProtocolResult (List ℕ)
encode_command json command = do
  validate_command command
  header ← ok_or (json.to_vec command) invalid_header
  guard (leb (length header) max_header_bytes) header_too_large
  ok (to_be_bytes (as_u32 (length header)) ++ (header ++ to_be_bytes 0))

-- `from_slice` with the checks of `Deserialize`; any failure is an invalid header.
unfoldable pub parse_header : Json CaptureHeader → List ℕ → ProtocolResult CaptureHeader
parse_header json bytes = do
  header ← ok_or (json.from_slice bytes) invalid_header
  guard (is_ok (deserialize_header header)) invalid_header
  ok header

unfoldable pub decode :
    Json CaptureHeader → FrameDecoder → Reader → ProtocolResult (CaptureFrame × Reader)
decode json decoder r0 = do
  sized ← read_length r0
  guard (leb sized.0 decoder.max_header_bytes) header_too_large
  read ← read_exact sized.0 sized.1
  header ← parse_header json read.0
  validate_header header
  sized' ← read_length read.1
  guard (leb sized'.0 decoder.max_payload_bytes) payload_too_large
  guard (is_audio_frame header || sized'.0 == 0) unexpected_payload
  read' ← read_exact sized'.0 sized'.1
  validate_audio_payload header read'.0
  ok (record { header = header; payload = read'.0 }, read'.1)
