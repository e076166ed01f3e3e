-- ===== src/Domain/Tests.antt =====
-- src-tauri/src/domain.rs: a session that is recorded and stopped, and a configuration of another machine.
use life_sub.Common.{ℕ, ◌≡◌, ◌⊎◌, false, true, some, List, [], ◌∷◌, ok}
use life_sub.Domain.{
  CaptureState, recording, stopped, is_stopped, new_session, RecordingConfig, check_microphone,
  for_data_directory, validate_for_persistence, default_for_capabilities,
  normalized_for_capabilities,
}
use life_sub.Domain.Sessions.{transition_all, EndsWhenStopped, transition_all-new_session}
use life_sub.Domain.Configs.{normalized_for_capabilities_exact}

abbrev targets : List (ℕ × CaptureState)
targets = (5, recording) ∷ (9, stopped) ∷ []

transition_all-new_session_example :
    EndsWhenStopped (transition_all targets (new_session "rec" "t" 1))
    × ((is_stopped (transition_all targets (new_session "rec" "t" 1)).state ≡ false)
        ⊎ (transition_all targets (transition_all targets (new_session "rec" "t" 1))
            ≡ transition_all targets (new_session "rec" "t" 1)))
transition_all-new_session_example = transition_all-new_session "rec" "t" 1 targets targets

abbrev config : RecordingConfig
config = record {
  capture_mode = "loopback";
  im_detection_enabled = true;
  im_apps = "chat" ∷ [];
  detection_delay_secs = 1;
  recovery_delay_secs = 1;
  sample_rate = 48000;
  storage_path = "/old";
  microphone_device_uid = some "u";
  microphone_device_name = some "n";
}

normalized_for_capabilities_exact_example :
    (validate_for_persistence (normalized_for_capabilities (for_data_directory "/new") config)
      ≡ check_microphone (some "u") (some "n"))
    × (normalized_for_capabilities
          (for_data_directory "/new")
          (normalized_for_capabilities (for_data_directory "/new") config)
        ≡ normalized_for_capabilities (for_data_directory "/new") config)
    × (validate_for_persistence (default_for_capabilities (for_data_directory "/new")) ≡ ok tt)
    × (normalized_for_capabilities
          (for_data_directory "/new")
          (default_for_capabilities (for_data_directory "/new"))
        ≡ default_for_capabilities (for_data_directory "/new"))
normalized_for_capabilities_exact_example = normalized_for_capabilities_exact "/new" config
