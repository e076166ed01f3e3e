-- ===== src/Evidence.antt =====
-- src-tauri/src/service/evidence_uri.rs: the addresses of evidence, and evidence_uri of src-tauri/src/domain.rs, which
-- makes them for a session and for a segment of a revision. An i64 is its bits.
pub mod Decimals
pub mod RoundTrip
mod Tests
use Prim.Native.Char.{code}
use life_sub.Common.{
  ℕ, Bool, not, Option, none, some, String, Result, ok, err, ◌==◌, if◌then◌else◌, str_is_empty,
  ◌>>=◌, guard, ◌>>◌,
}
use life_sub.Capture.Seal.{strip_prefix}
use life_sub.Domain.{CaptureSession}
use life_sub.Transcripts.{TranscriptSegment}
use life_sub.Evidence.Decimals.{show_i64, parse_i64}

pub data EvidenceTarget : Type 0 where
  record_target : String → EvidenceTarget
  segment_target : String → Option ℕ → EvidenceTarget
  audio_target : String → Option ℕ → Option ℕ → EvidenceTarget

pub data EvidenceError : Type 0 where
  invalid_evidence_uri : EvidenceError

-- `format!`
unfoldable pub join : String → String → String
join String.[] t = t
join (String.◌∷◌ c s) t = String.◌∷◌ c (join s t)

unfoldable pub session_evidence_uri : CaptureSession → String
session_evidence_uri session = join "lifesub://record/" session.id

unfoldable pub segment_evidence_uri : ℕ → TranscriptSegment → String
segment_evidence_uri revision segment =
    join "lifesub://segment/" (join segment.id (join "?revision=" (show_i64 revision)))

-- `split_once` at a character.
unfoldable pub split_once : ℕ → String → Option (String × String)
split_once at String.[] = none
split_once at (String.◌∷◌ c s) =
    let rest = split_once at s in
    if code c == at
    then some ("", s)
    else elim rest [ none ↦ none | some (a, b) ↦ some (String.◌∷◌ c a, b) ]

-- `split_once(…).unwrap_or((body, ""))`
abbrev pub or_whole : String → Option (String × String) → String × String
or_whole body none = (body, "")
or_whole body (some parts) = parts

unfoldable pub non_empty : String → Result EvidenceError String
non_empty value = if str_is_empty value then err invalid_evidence_uri else ok value

abbrev pub and_parse : Option String → Option ℕ
and_parse none = none
and_parse (some value) = parse_i64 value

abbrev pub segment_from : String × String → Result EvidenceError EvidenceTarget
segment_from (id, query) =
    non_empty id >>= λ id. ok (segment_target id (and_parse (strip_prefix "revision=" query)))

unfoldable pub parse_segment : String → Result EvidenceError EvidenceTarget
parse_segment body = segment_from (or_whole body (split_once 63 body))

abbrev pub first_part : Option (String × String) → Option String
first_part none = none
first_part (some (a, b)) = some a

abbrev pub second_part : Option (String × String) → Option String
second_part none = none
second_part (some (a, b)) = some b

unfoldable pub parse_audio : String → Result EvidenceError EvidenceTarget
parse_audio body =
    let (id, fragment) = or_whole body (split_once 35 body) in
    let range : Option (String × String) = elim (strip_prefix "t=" fragment) [
      | none ↦ none
      | some value ↦ split_once 44 value
    ] in
    non_empty id >>= λ id.
    ok (audio_target id (and_parse (first_part range)) (and_parse (second_part range)))

unfoldable pub parse_body : String → Result EvidenceError EvidenceTarget
parse_body body = elim (strip_prefix "record/" body) [
  | some id ↦ (non_empty id >>= λ id. ok (record_target id))
  | none ↦ elim (strip_prefix "segment/" body) [
    | some rest ↦ parse_segment rest
    | none ↦ elim (strip_prefix "audio/" body) [
      | some rest ↦ parse_audio rest
      | none ↦ err invalid_evidence_uri
    ]
  ]
]

unfoldable pub parse_evidence_uri : String → Result EvidenceError EvidenceTarget
parse_evidence_uri uri = elim (strip_prefix "lifesub://" uri) [
  | none ↦ err invalid_evidence_uri
  | some body ↦ parse_body body
]
