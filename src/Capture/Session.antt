-- ===== src/Capture/Session.antt =====
-- src-tauri/src/capture/session.rs: the modes of a capture, the selection of its microphone, the errors, and the
-- registration of its sources. A summary that is the text of another package's error is an argument.
pub mod Worker
pub mod Rounds
pub mod Calls
pub mod Ends
pub mod Shutdown
pub mod Success
pub mod Startup
pub mod Start
pub mod Reported
mod Tests
use life_sub.Common.{
  ℕ, Bool, true, false, not, ◌&&◌, Option, none, some, List, [], ◌∷◌, ◌++◌, String, Result, ok, err,
  ◌>>=◌, str_is_empty, trim, if◌then◌else◌, map, str_eq,
}
use life_sub.Capture.Protocol.Headers.{Source, microphone, system_audio, SourceStarted}
use life_sub.Capture.Coordinator.{
  NativeCaptureSourceRequest, NativeCaptureStableError, NativeCaptureTransportError,
  NativeCaptureCoordinatorError, fatal, helper_exited, protocol_violation, backpressure,
  commit_failed, device_interrupted, unsupported_source, transport_helper_exited,
  transport_protocol_violation, transport_backpressure, duplicate_source, no_enabled_sources,
  invalid_state, preflight_rejected, stable,
}
use life_sub.Capture.Seal.{AudioSource}
use life_sub.Capture.Committer.{audio_source_of}

pub data NativeCaptureMode : Type 0 where
  smart mic_only system_only : NativeCaptureMode

pub data NativeCaptureSessionError : Type 0 where
  already_running not_running missing_session session_protocol_violation : NativeCaptureSessionError
  worker_exited : NativeCaptureSessionError
  launch_failed session_invalid_state catalog_failed : String → NativeCaptureSessionError
  session_stable : NativeCaptureStableError → NativeCaptureSessionError

abbrev pub SessionResult : Type 0 → Type 0
SessionResult = Result NativeCaptureSessionError

-- `From<NativeCaptureCoordinatorError>`
unfoldable pub from_coordinator_error : NativeCaptureCoordinatorError → NativeCaptureSessionError
from_coordinator_error (invalid_state state) = session_invalid_state state
from_coordinator_error (stable e) = session_stable e
from_coordinator_error (duplicate_source _) = session_protocol_violation
from_coordinator_error no_enabled_sources = session_protocol_violation
from_coordinator_error (preflight_rejected _) = session_protocol_violation

unfoldable pub map_transport_error : NativeCaptureTransportError → NativeCaptureStableError
map_transport_error (unsupported_source s) = device_interrupted s "unsupported source"
map_transport_error transport_helper_exited = helper_exited
map_transport_error transport_protocol_violation = protocol_violation
map_transport_error transport_backpressure = backpressure

unfoldable pub stable_fatal : String → String → NativeCaptureSessionError
stable_fatal code summary = session_stable (fatal code summary)

abbrev enabled_request : Source → NativeCaptureSourceRequest
enabled_request s = record { source = s; enabled = true }

unfoldable pub requests_for_mode : NativeCaptureMode → List NativeCaptureSourceRequest
requests_for_mode smart = enabled_request microphone ∷ enabled_request system_audio ∷ []
requests_for_mode mic_only = enabled_request microphone ∷ []
requests_for_mode system_only = enabled_request system_audio ∷ []

abbrev pub selected_text : Option String → Option String
selected_text none = none
selected_text (some uid) = if str_is_empty (trim uid) then none else some (trim uid)

unfoldable pub validate_microphone_selection :
    NativeCaptureMode → Option String → SessionResult (Option String)
unfolding trim str_is_empty stable_fatal
validate_microphone_selection system_only uid = elim (selected_text uid) [
  | some _ ↦ err (stable_fatal "invalid_capture_mode_microphone_selection" "仅系统音频模式不接受麦克风选择。")
  | none ↦ ok none
]
validate_microphone_selection _ uid = elim (selected_text uid) [
  | some selected ↦ ok (some selected)
  | none ↦ err (stable_fatal "microphone_selection_required" "麦克风录制前必须先明确选择一个麦克风。")
]

pub record LiveCaptureError : Type 0 where
  pub code : String
  pub message : String

-- `other` is the text that `Display` makes of an error.
unfoldable pub live_capture_error :
    (NativeCaptureSessionError → String) → NativeCaptureSessionError → LiveCaptureError
live_capture_error other (session_stable (fatal code summary)) = record {
  code = code;
  message = summary;
}
live_capture_error other (session_stable (device_interrupted _ reason)) = record {
  code = reason;
  message = if str_eq reason "selected_microphone_disconnected" then "所选麦克风已断开连接。" else reason;
}
live_capture_error other e = record { code = "native_capture_failed"; message = other e }

pub record CaptureSourceRecord : Type 0 where
  pub id : String
  pub session_id : String
  pub source : AudioSource
  pub device_uid : String
  pub device_name : String
  pub channel_count : ℕ
  pub sample_rate_hz : ℕ
  pub created_at : ℕ

-- The sources that a map has, with their messages. The order in which a `HashMap` yields them is not used.
abbrev pub entries : (Source → Option SourceStarted) → List (Source × SourceStarted)
entries started =
    (elim (started microphone) [ none ↦ [] | some m ↦ (microphone, m) ∷ [] ])
    ++ (elim (started system_audio) [ none ↦ [] | some s ↦ (system_audio, s) ∷ [] ])

-- `new_id` is the identity that is made for a source, `insert_all` the catalog's answer to the records.
unfoldable pub register_capture_sources :
    (Source → String)
    → (List CaptureSourceRecord → Result String (Unit {0}))
    → ℕ
    → String
    → (Source → Option SourceStarted)
    → SessionResult (Source → Option String)
register_capture_sources new_id insert_all now session_id started =
    elim (insert_all (
      map
        (λ e. record {
          id = new_id e.0;
          session_id = session_id;
          source = audio_source_of e.0;
          device_uid = e.1.device_id;
          device_name = e.1.device_name;
          channel_count = e.1.channel_count;
          sample_rate_hz = e.1.sample_rate;
          created_at = now;
        })
        (entries started))) [
          | err summary ↦ err (catalog_failed summary)
          | ok _ ↦ ok (λ s. elim (started s) [ none ↦ none | some _ ↦ some (new_id s) ])
        ]
