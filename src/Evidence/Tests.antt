-- ===== src/Evidence/Tests.antt =====
-- src-tauri/src/service/evidence_uri.rs: the addresses of a session and of a segment.
use life_sub.Common.{◌≡◌, refl, none, some, ok, str_is_empty, arith}
use life_sub.Capture.Seal.{microphone, all_codes, strip_prefix}
use life_sub.Domain.{CaptureSession, stopped}
use life_sub.Transcripts.{TranscriptSegment}
use life_sub.Evidence.{
  record_target, segment_target, audio_target, session_evidence_uri, segment_evidence_uri,
  parse_evidence_uri, parse_body, parse_audio, split_once, non_empty,
}
use life_sub.Evidence.Decimals.{parse_i64, read_number, read_digits}
use life_sub.Evidence.RoundTrip.{parse_evidence_uri-shown}

abbrev session : CaptureSession
session = record {
  id = "ses_1";
  title = "Talk";
  state = stopped;
  started_at = 1;
  ended_at = some 2;
}

abbrev segment : TranscriptSegment
segment = record {
  id = "seg_1";
  start_ms = 0;
  end_ms = 10;
  source = microphone;
  text = "hello";
  chunk_id = none;
  chunk_start_ms = none;
  chunk_end_ms = none;
}

parse_evidence_uri-shown_example :
    (parse_evidence_uri (session_evidence_uri session) ≡ ok (record_target "ses_1"))
    × (parse_evidence_uri (segment_evidence_uri 120 segment)
        ≡ ok (segment_target "seg_1" (some 120)))
unfolding str_is_empty all_codes
parse_evidence_uri-shown_example =
    parse_evidence_uri-shown session segment 120 refl refl refl (omega arith)

audio_address :
    parse_evidence_uri "lifesub://audio/chk_1#t=3,x" ≡ ok (audio_target "chk_1" (some 3) none)
unfolding parse_evidence_uri parse_body parse_audio split_once non_empty strip_prefix str_is_empty
    parse_i64 read_number read_digits
audio_address = refl
