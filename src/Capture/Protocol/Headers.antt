-- ===== src/Capture/Protocol/Headers.antt =====
-- src-tauri/src/capture/protocol.rs: the messages. An `f32` is its bit pattern.
use life_sub.Common.{ℕ, ◌*◌, Bool, true, false, Option, List, String, Result}

abbrev pub protocol_version : ℕ
protocol_version = 2

abbrev pub max_header_bytes : ℕ
max_header_bytes = 64 * 1024

abbrev pub max_payload_bytes : ℕ
max_payload_bytes = 4 * 1024 * 1024

abbrev pub max_microphone_devices : ℕ
max_microphone_devices = 32

pub data Source : Type 0 where
  microphone system_audio : Source

abbrev pub source_eq : Source → Source → Bool
source_eq microphone microphone = true
source_eq system_audio system_audio = true
source_eq _ _ = false

pub data CaptureCommand : Type 0 where
  start : ℕ → List Source → String → Option String → CaptureCommand
  list_microphones : ℕ → CaptureCommand
  probe_microphone : ℕ → String → CaptureCommand
  get_permission_state : ℕ → CaptureCommand
  pause : ℕ → CaptureCommand
  resume : ℕ → CaptureCommand
  stop : ℕ → CaptureCommand
  shutdown : ℕ → CaptureCommand

pub data PcmFormat : Type 0 where
  s16_le : PcmFormat

abbrev pub bytes_per_sample : PcmFormat → ℕ
bytes_per_sample s16_le = 2

pub data DiscontinuityFlag : Type 0 where
  gap device_change permission_revoked clock_reset dropped_buffers : DiscontinuityFlag

pub data PermissionState : Type 0 where
  not_determined not_granted denied restricted granted : PermissionState

pub data HelloCapability : Type 0 where
  device_discovery exact_microphone_selection microphone_probe : HelloCapability
  permission_diagnostics : HelloCapability

abbrev pub capability_eq : HelloCapability → HelloCapability → Bool
capability_eq device_discovery device_discovery = true
capability_eq exact_microphone_selection exact_microphone_selection = true
capability_eq microphone_probe microphone_probe = true
capability_eq permission_diagnostics permission_diagnostics = true
capability_eq _ _ = false

pub data MicrophoneTransport : Type 0 where
  built_in usb bluetooth aggregate virtual unknown : MicrophoneTransport

pub record Hello : Type 0 where
  pub protocol_version : ℕ
  pub helper_pid : ℕ
  pub launch_nonce : String
  pub supported_sources : List Source
  pub capabilities : List HelloCapability

pub record MicrophoneDevice : Type 0 where
  pub uid : String
  pub name : String
  pub is_default : Bool
  pub is_connected : Bool
  pub transport : MicrophoneTransport

pub data MicrophoneProbeResult : Type 0 where
  compatible permission_denied unavailable identity_mismatch : MicrophoneProbeResult
  invalid_format no_audio_frames route_conflict timeout : MicrophoneProbeResult

pub record MicrophoneProbeMessage : Type 0 where
  pub uid : String
  pub name : String
  pub transport : MicrophoneTransport
  pub input_sample_rate_hz : Option ℕ
  pub input_channel_count : Option ℕ
  pub read_back_uid : Option String
  pub first_frame_sample_count : ℕ
  pub elapsed_ms : ℕ
  pub result : MicrophoneProbeResult

pub record PermissionStateMessage : Type 0 where
  pub microphone : PermissionState
  pub screen_recording : PermissionState

pub record SourceStarted : Type 0 where
  pub source : Source
  pub device_id : String
  pub device_name : String
  pub sample_rate : ℕ
  pub channel_count : ℕ
  pub host_time : ℕ

pub record AudioFrame : Type 0 where
  pub source : Source
  pub sequence : ℕ
  pub sample_position : ℕ
  pub host_time : ℕ
  pub format : PcmFormat
  pub channel_count : ℕ
  pub discontinuity_flags : List DiscontinuityFlag

pub record Level : Type 0 where
  pub source : Source
  pub rms : ℕ
  pub peak : ℕ

pub record ChunkSealed : Type 0 where
  pub source : Source
  pub relative_staging_path : String
  pub byte_length : ℕ
  pub sha256 : String
  pub duration_ms : ℕ
  pub start_sample_position : ℕ
  pub end_sample_position : ℕ
  pub start_host_time : ℕ
  pub end_host_time : ℕ

pub record SourceInterrupted : Type 0 where
  pub source : Source
  pub reason : String
  pub recoverable : Bool

pub record SourceRecovering : Type 0 where
  pub source : Source
  pub generation : ℕ
  pub reason : String

pub record SourceRecovered : Type 0 where
  pub source : Source
  pub generation : ℕ
  pub device_id : String
  pub first_host_time : ℕ

pub record SourceStopped : Type 0 where
  pub source : Source
  pub final_sequence : ℕ
  pub start_host_time : ℕ
  pub end_host_time : ℕ

pub record FatalError : Type 0 where
  pub code : String
  pub summary : String

-- The list of `microphone_devices` is the one field of its message.
pub data CaptureHeader : Type 0 where
  hello : Hello → CaptureHeader
  permission_state : PermissionStateMessage → CaptureHeader
  source_started : SourceStarted → CaptureHeader
  microphone_devices : List MicrophoneDevice → CaptureHeader
  microphone_probe_result : MicrophoneProbeMessage → CaptureHeader
  audio_frame : AudioFrame → CaptureHeader
  level : Level → CaptureHeader
  chunk_sealed : ChunkSealed → CaptureHeader
  source_interrupted : SourceInterrupted → CaptureHeader
  source_recovering : SourceRecovering → CaptureHeader
  source_recovered : SourceRecovered → CaptureHeader
  source_stopped : SourceStopped → CaptureHeader
  fatal_error : FatalError → CaptureHeader
  shutdown_ack : CaptureHeader

pub record CaptureFrame : Type 0 where
  pub header : CaptureHeader
  pub payload : List ℕ

pub data CaptureProtocolError : Type 0 where
  header_too_large payload_too_large truncated_frame frame_read_timeout : CaptureProtocolError
  invalid_header unexpected_payload invalid_audio_payload hello_required : CaptureProtocolError
  hello_replay unsupported_version non_monotonic_sequence : CaptureProtocolError

abbrev pub ProtocolResult : Type 0 → Type 0
ProtocolResult = Result CaptureProtocolError
