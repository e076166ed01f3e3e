-- ===== src/Capture/Seal.antt =====
-- src-tauri/src/capture/seal.rs: the request, the names of its files, and the check of a file's bytes. An `i64`
-- is its bits, as is a point in time; a file is its inode and its bytes.
pub mod Insert
pub mod Files
pub mod Intents
pub mod Sealer
pub mod Places
pub mod Runs
pub mod Steps
pub mod Sealable
pub mod Publishing
pub mod Recovers
pub mod Attempts
mod Tests
use Prim.Native.Char.{Char, code}
use Prim.Native.String.{◌++◌, len}
use life_sub.Common.{
  ℕ, ◌+◌, ◌%◌, ◌^◌, Bool, true, false, not, ◌&&◌, ◌||◌, Option, none, some, List, [], ◌∷◌, String,
  Result, ok, err, ltb, leb, ◌==◌, if◌then◌else◌, any, str_eq, str_is_empty, is_some_and,
}

pub data AudioSource : Type 0 where
  microphone system_audio imported : AudioSource

abbrev pub audio_source_eq : AudioSource → AudioSource → Bool
audio_source_eq microphone microphone = true
audio_source_eq system_audio system_audio = true
audio_source_eq imported imported = true
audio_source_eq _ _ = false

pub record AudioChunk : Type 0 where
  pub id : String
  pub session_id : String
  pub source : AudioSource
  pub path : String
  pub sha256 : String
  pub byte_length : ℕ

pub record CaptureChunkTiming : Type 0 where
  pub chunk_id : String
  pub capture_source_id : String
  pub source_sequence : ℕ
  pub source_sample_start : ℕ
  pub source_sample_end : ℕ
  pub session_start_ms : ℕ
  pub session_end_ms : ℕ
  pub monotonic_start_ns : ℕ
  pub monotonic_end_ns : ℕ
  pub utc_start_at : ℕ
  pub utc_end_at : ℕ
  pub discontinuity_count : ℕ
  pub dropped_frame_count : ℕ
  pub created_at : ℕ

-- What `Path::components` yields.
pub data Component : Type 0 where
  normal : String → Component
  other_component : Component

pub record NativeChunkSealRequest : Type 0 where
  pub relative_staging_path : List Component
  pub chunk_id : String
  pub session_id : String
  pub source : AudioSource
  pub expected_sha256 : String
  pub expected_byte_length : ℕ
  pub timing : CaptureChunkTiming

pub record NativeSealIntent : Type 0 where
  pub chunk : AudioChunk
  pub intent_timing : CaptureChunkTiming

pub data IoKind : Type 0 where
  not_found already_exists other_kind : IoKind

pub data NativeChunkSealError : Type 0 where
  invalid_path integrity_mismatch conflict : NativeChunkSealError
  io : IoKind → NativeChunkSealError
  catalog_error : NativeChunkSealError
  recovery_required : IoKind → NativeChunkSealError

pub record RegularFile : Type 0 where
  pub identity : ℕ
  pub bytes : List ℕ

-- `==` of the derived instances.
unfoldable pub chunk_eq : AudioChunk → AudioChunk → Bool
chunk_eq a b =
    str_eq a.id b.id
    && str_eq a.session_id b.session_id
    && audio_source_eq a.source b.source
    && str_eq a.path b.path
    && str_eq a.sha256 b.sha256
    && a.byte_length == b.byte_length

unfoldable pub timing_eq : CaptureChunkTiming → CaptureChunkTiming → Bool
timing_eq a b =
    str_eq a.chunk_id b.chunk_id
    && str_eq a.capture_source_id b.capture_source_id
    && a.source_sequence == b.source_sequence
    && a.source_sample_start == b.source_sample_start
    && a.source_sample_end == b.source_sample_end
    && a.session_start_ms == b.session_start_ms
    && a.session_end_ms == b.session_end_ms
    && a.monotonic_start_ns == b.monotonic_start_ns
    && a.monotonic_end_ns == b.monotonic_end_ns
    && a.utc_start_at == b.utc_start_at
    && a.utc_end_at == b.utc_end_at
    && a.discontinuity_count == b.discontinuity_count
    && a.dropped_frame_count == b.dropped_frame_count
    && a.created_at == b.created_at

unfoldable pub intent_eq : NativeSealIntent → NativeSealIntent → Bool
intent_eq a b = chunk_eq a.chunk b.chunk && timing_eq a.intent_timing b.intent_timing

abbrev pub prepend : Char → Option String → Option String
prepend c none = none
prepend c (some s) = some (String.◌∷◌ c s)

unfoldable pub strip_prefix : String → String → Option String
strip_prefix String.[] s = some s
strip_prefix (String.◌∷◌ p ps) String.[] = none
strip_prefix (String.◌∷◌ p ps) (String.◌∷◌ c s) =
    let rest = strip_prefix ps s in if code p == code c then rest else none

unfoldable pub strip_suffix : String → String → Option String
strip_suffix suffix String.[] = if str_eq suffix "" then some "" else none
strip_suffix suffix (String.◌∷◌ c s) =
    let rest = strip_suffix suffix s in
    if str_eq suffix (String.◌∷◌ c s) then some "" else prepend c rest

-- `rsplit_once('.')`
unfoldable pub rsplit_once_dot : String → Option (String × String)
rsplit_once_dot String.[] = none
rsplit_once_dot (String.◌∷◌ c s) = elim (rsplit_once_dot s) [
  | some (a, b) ↦ some (String.◌∷◌ c a, b)
  | none ↦ if code c == 46 then some ("", s) else none
]

abbrev pub is_lower_or_digit : ℕ → Bool
is_lower_or_digit c = (leb 97 c && leb c 122) || (leb 48 c && leb c 57)

unfoldable pub all_codes : (ℕ → Bool) → String → Bool
all_codes p String.[] = true
all_codes p (String.◌∷◌ c s) = p (code c) && all_codes p s

unfoldable pub is_native_chunk_id : String → Bool
unfolding strip_prefix all_codes
is_native_chunk_id value =
    is_some_and
      (λ identity.
        not (str_is_empty identity)
        && leb (len identity) 64
        && all_codes (λ c. is_lower_or_digit c || c == 95) identity)
      (strip_prefix "chk_" value)

unfoldable pub is_native_final_name : String → Bool
unfolding is_native_chunk_id rsplit_once_dot
is_native_final_name name = elim (rsplit_once_dot name) [
  | none ↦ false
  | some (chunk_id, extension) ↦
      is_native_chunk_id chunk_id
      && not (str_is_empty extension)
      && leb (len extension) 16
      && all_codes is_lower_or_digit extension
]

-- The final name of a staged file: its name without the suffix `.partial`.
unfoldable pub final_name_of : String → String → Result NativeChunkSealError String
unfolding is_native_final_name strip_suffix
final_name_of chunk_id name = elim (strip_suffix ".partial" name) [
  | none ↦ err invalid_path
  | some final_name ↦
      if str_is_empty final_name
        || not (is_native_final_name final_name)
        || not (
            is_some_and (λ suffix. is_some_and (λ _. true) (strip_prefix "." suffix))
              (strip_prefix chunk_id final_name))
      then err invalid_path
      else ok final_name
]

unfoldable pub validated_names : List Component → String → Result NativeChunkSealError String
unfolding final_name_of
validated_names (normal name ∷ []) chunk_id =
    if not (is_native_chunk_id chunk_id) then err invalid_path else final_name_of chunk_id name
validated_names _ chunk_id = err invalid_path

abbrev pub chunk_of : NativeChunkSealRequest → String → AudioChunk
chunk_of request final_name = record {
  id = request.chunk_id;
  session_id = request.session_id;
  source = request.source;
  path = "audio/" ++ final_name;
  sha256 = request.expected_sha256;
  byte_length = request.expected_byte_length;
}

abbrev pub intent_of : NativeChunkSealRequest → AudioChunk → NativeSealIntent
intent_of request chunk = record { chunk = chunk; intent_timing = request.timing }
