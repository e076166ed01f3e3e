-- ===== src/Domain/Configs.antt =====
-- src-tauri/src/domain.rs: what normalisation makes of a configuration.
use life_sub.Common.{
  ◌≡◌, refl, inl, inr, true, List, String, ok, if◌then◌else◌, contains, Bool-cases,
}
use life_sub.Domain.{
  RecordingConfig, supported_recording_capture_modes, check_microphone, for_data_directory,
  validate_for_persistence, default_for_capabilities, normalized_for_capabilities,
}

fallback-contains :
    (modes : List String) (mode : String)
    → contains modes "smart" ≡ true
    → contains modes (if contains modes mode then mode else "smart") ≡ true
fallback-contains modes mode h = elim (Bool-cases (contains modes mode)) [
  | inl e ↦ rw e e
  | inr e ↦ rw e h
]

-- A normalised configuration for a data directory fails validation exactly as its microphone's selection does, and
-- is normalised already; and the default for the directory is valid and normalised.
pub normalized_for_capabilities_exact :
    (path : String) (c : RecordingConfig)
    → (validate_for_persistence (normalized_for_capabilities (for_data_directory path) c)
        ≡ check_microphone c.microphone_device_uid c.microphone_device_name)
      × (normalized_for_capabilities
            (for_data_directory path)
            (normalized_for_capabilities (for_data_directory path) c)
          ≡ normalized_for_capabilities (for_data_directory path) c)
      × (validate_for_persistence (default_for_capabilities (for_data_directory path)) ≡ ok tt)
      × (normalized_for_capabilities
            (for_data_directory path)
            (default_for_capabilities (for_data_directory path))
          ≡ default_for_capabilities (for_data_directory path))
unfolding validate_for_persistence normalized_for_capabilities for_data_directory
    default_for_capabilities
normalized_for_capabilities_exact path c =
    let kept = fallback-contains supported_recording_capture_modes c.capture_mode refl in
    (rw kept refl, rw kept refl, refl, refl)
