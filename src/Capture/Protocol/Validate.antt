-- ===== src/Capture/Protocol/Validate.antt =====
-- src-tauri/src/capture/protocol.rs: the checks of commands and headers.
use life_sub.Common.{
  ℕ, Bool, true, false, not, ◌&&◌, ◌||◌, Option, some, none, List, [], ◌∷◌, String, ok, ◌>>◌, guard,
  ltb, leb, ◌==◌, is_some_and, length, is_empty, any, str_eq, contains, trim_is_empty, str_is_empty,
  ◌%◌, ◌*◌,
}
use life_sub.Capture.Protocol.Headers.{
  protocol_version, max_microphone_devices, microphone, source_eq, CaptureCommand, start,
  list_microphones, probe_microphone, get_permission_state, pause, resume, stop, shutdown,
  bytes_per_sample, HelloCapability, device_discovery, exact_microphone_selection, microphone_probe,
  permission_diagnostics, capability_eq, Hello, MicrophoneDevice, MicrophoneProbeResult, compatible,
  identity_mismatch, no_audio_frames, MicrophoneProbeMessage, CaptureHeader, hello,
  microphone_devices, microphone_probe_result, source_recovering, source_recovered, audio_frame,
  ProtocolResult, invalid_header, unsupported_version, invalid_audio_payload,
}

unfoldable pub validate_version : ℕ → ProtocolResult (Unit {0})
validate_version version = guard (version == protocol_version) unsupported_version

-- The match on whether the microphone is requested and on the device that is named.
abbrev pub names_device : Bool → Option String → Bool
names_device true (some uid) = not (trim_is_empty uid)
names_device false none = true
names_device _ _ = false

unfoldable pub validate_command : CaptureCommand → ProtocolResult (Unit {0})
unfolding validate_version
validate_command (start version requested_sources staging_root uid) = do
  guard (not (is_empty requested_sources)) invalid_header
  guard (names_device (any (λ s. source_eq s microphone) requested_sources) uid) invalid_header
  validate_version version
validate_command (probe_microphone version uid) = do
  guard (not (trim_is_empty uid)) invalid_header
  validate_version version
validate_command (get_permission_state version) = validate_version version
validate_command (list_microphones version) = validate_version version
validate_command (pause version) = validate_version version
validate_command (resume version) = validate_version version
validate_command (stop version) = validate_version version
validate_command (shutdown version) = validate_version version

-- The set of the capabilities is asked for membership only.
abbrev pub has_capability : List HelloCapability → HelloCapability → Bool
has_capability cs c = any (λ x. capability_eq x c) cs

unfoldable pub validate_hello : Hello → ProtocolResult (Unit {0})
unfolding validate_version
validate_hello h = do
  validate_version h.protocol_version
  guard
      (has_capability h.capabilities device_discovery
        && has_capability h.capabilities exact_microphone_selection
        && has_capability h.capabilities microphone_probe
        && has_capability h.capabilities permission_diagnostics)
      invalid_header

unfoldable pub validate_microphone_device : MicrophoneDevice → ProtocolResult (Unit {0})
validate_microphone_device device =
    guard (not (trim_is_empty device.uid || trim_is_empty device.name || not device.is_connected))
      invalid_header

-- The loop over the devices; `uids` holds those seen.
unfoldable pub validate_devices : List String → List MicrophoneDevice → ProtocolResult (Unit {0})
validate_devices uids [] = ok tt
validate_devices uids (d ∷ ds) = do
  validate_microphone_device d
  guard (not (contains uids d.uid)) invalid_header
  validate_devices (d.uid ∷ uids) ds

unfoldable pub validate_microphone_devices : List MicrophoneDevice → ProtocolResult (Unit {0})
unfolding validate_devices validate_microphone_device
validate_microphone_devices devices = do
  guard (leb (length devices) max_microphone_devices) invalid_header
  validate_devices [] devices

abbrev pub reads_back : MicrophoneProbeMessage → Bool
reads_back m =
    is_some_and (ltb 0) m.input_sample_rate_hz
    && is_some_and (ltb 0) m.input_channel_count
    && is_some_and (λ uid. str_eq uid m.uid) m.read_back_uid

unfoldable pub valid_probe : MicrophoneProbeResult → MicrophoneProbeMessage → Bool
valid_probe compatible m = reads_back m && ltb 0 m.first_frame_sample_count
valid_probe identity_mismatch m =
    is_some_and (λ uid. not (str_is_empty uid) && not (str_eq uid m.uid)) m.read_back_uid
    && m.first_frame_sample_count == 0
valid_probe no_audio_frames m = reads_back m && m.first_frame_sample_count == 0
valid_probe _ m = m.first_frame_sample_count == 0

unfoldable pub validate_microphone_probe : MicrophoneProbeMessage → ProtocolResult (Unit {0})
unfolding valid_probe
validate_microphone_probe m = do
  guard (not (trim_is_empty m.uid || trim_is_empty m.name)) invalid_header
  guard (valid_probe m.result m) invalid_header

unfoldable pub validate_header : CaptureHeader → ProtocolResult (Unit {0})
validate_header (hello h) = validate_hello h
validate_header (microphone_devices ds) = validate_microphone_devices ds
validate_header (microphone_probe_result m) = validate_microphone_probe m
validate_header (source_recovering v) =
    guard (not (v.generation == 0 || trim_is_empty v.reason)) invalid_header
validate_header (source_recovered v) =
    guard (not (v.generation == 0 || trim_is_empty v.device_id || v.first_host_time == 0))
      invalid_header
validate_header _ = ok tt

-- `bytes_per_sample().checked_mul(channel_count)` cannot overflow: the count is a `u16`.
unfoldable pub validate_audio_payload : CaptureHeader → List ℕ → ProtocolResult (Unit {0})
validate_audio_payload (audio_frame frame) payload = do
  let frame_bytes = bytes_per_sample frame.format * frame.channel_count
  guard (not (frame_bytes == 0)) invalid_audio_payload
  guard (not (is_empty payload || not (length payload % frame_bytes == 0))) invalid_audio_payload
validate_audio_payload _ payload = ok tt
