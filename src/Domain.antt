-- ===== src/Domain.antt =====
-- src-tauri/src/domain.rs: the states of a session, and the configuration of a recording. A time is a reading of
-- the clock, and an `i64` that is only copied a number.
pub mod Sessions
pub mod Configs
mod Tests
use life_sub.Common.{
  ℕ, Bool, true, false, not, ◌&&◌, Option, none, some, List, [], ◌∷◌, String, Result, ok, err,
  if◌then◌else◌, contains, trim_is_empty,
}

pub data CaptureState : Type 0 where
  idle recording paused stopped : CaptureState

pub record CaptureSession : Type 0 where
  pub id : String
  pub title : String
  pub state : CaptureState
  pub started_at : ℕ
  pub ended_at : Option ℕ

pub data DomainError : Type 0 where
  invalid_capture_transition : CaptureState → CaptureState → DomainError

unfoldable pub new_session : String → String → ℕ → CaptureSession
new_session id title now = record {
  id = id;
  title = title;
  state = idle;
  started_at = now;
  ended_at = none;
}

abbrev pub is_valid_transition : CaptureState → CaptureState → Bool
is_valid_transition idle recording = true
is_valid_transition recording paused = true
is_valid_transition recording stopped = true
is_valid_transition paused recording = true
is_valid_transition paused stopped = true
is_valid_transition _ _ = false

abbrev pub is_stopped : CaptureState → Bool
is_stopped stopped = true
is_stopped _ = false

unfoldable pub transition : ℕ → CaptureState → CaptureSession → Result DomainError CaptureSession
transition now target s =
    if not (is_valid_transition s.state target)
    then err (invalid_capture_transition s.state target)
    else ok
        (record s { state = target; ended_at = if is_stopped target then some now else s.ended_at })

pub record SettingsCapabilities : Type 0 where
  pub production_capture_output_sample_rate_hz : ℕ
  pub data_directory_path : String
  pub im_detection_available : Bool
  pub supported_capture_modes : List String

pub record RecordingConfig : Type 0 where
  pub capture_mode : String
  pub im_detection_enabled : Bool
  pub im_apps : List String
  pub detection_delay_secs : ℕ
  pub recovery_delay_secs : ℕ
  pub sample_rate : ℕ
  pub storage_path : String
  pub microphone_device_uid : Option String
  pub microphone_device_name : Option String

abbrev pub supported_recording_capture_modes : List String
supported_recording_capture_modes = "smart" ∷ "mic_only" ∷ "system_only" ∷ []

unfoldable pub for_data_directory : String → SettingsCapabilities
for_data_directory path = record {
  production_capture_output_sample_rate_hz = 16000;
  data_directory_path = path;
  im_detection_available = false;
  supported_capture_modes = supported_recording_capture_modes;
}

-- The text of an error is which of the two checks fails.
pub data ConfigError : Type 0 where
  unsupported_capture_mode unpaired_microphone : ConfigError

abbrev pub check_microphone : Option String → Option String → Result ConfigError (Unit {0})
check_microphone none none = ok tt
check_microphone (some uid) (some name) =
    if not (trim_is_empty uid) && not (trim_is_empty name) then ok tt else err unpaired_microphone
check_microphone _ _ = err unpaired_microphone

unfoldable pub validate_for_persistence : RecordingConfig → Result ConfigError (Unit {0})
validate_for_persistence c =
    if not (contains supported_recording_capture_modes c.capture_mode)
    then err unsupported_capture_mode
    else check_microphone c.microphone_device_uid c.microphone_device_name

unfoldable pub default_for_capabilities : SettingsCapabilities → RecordingConfig
default_for_capabilities capabilities = record {
  capture_mode = "smart";
  im_detection_enabled = capabilities.im_detection_available;
  im_apps = [];
  detection_delay_secs = 3;
  recovery_delay_secs = 5;
  sample_rate = capabilities.production_capture_output_sample_rate_hz;
  storage_path = capabilities.data_directory_path;
  microphone_device_uid = none;
  microphone_device_name = none;
}

unfoldable pub normalized_for_capabilities :
    SettingsCapabilities → RecordingConfig → RecordingConfig
normalized_for_capabilities capabilities c = record c {
  capture_mode =
      if contains capabilities.supported_capture_modes c.capture_mode
      then c.capture_mode
      else "smart";
  im_detection_enabled = capabilities.im_detection_available && c.im_detection_enabled;
  im_apps = if capabilities.im_detection_available then c.im_apps else [];
  sample_rate = capabilities.production_capture_output_sample_rate_hz;
  storage_path = capabilities.data_directory_path;
}
