-- ===== src/Capture/Protocol/Tests.antt =====
-- src-tauri/src/capture/protocol.rs: runs of the codec and of the validator.
use life_sub.Common.{
  ℕ, zero, checked_add, ◌≡◌, refl, ◌↔◌, Bool, true, false, Option, none, some, List, [], ◌∷◌, ◌++◌,
  ok, is_ok, arith, is_empty,
}
use life_sub.Capture.Protocol.Headers.{
  Source, microphone, system_audio, CaptureHeader, hello, audio_frame, AudioFrame, s16_le,
  shutdown_ack, Hello, device_discovery, exact_microphone_selection, microphone_probe,
  permission_diagnostics,
}
use life_sub.Capture.Protocol.Codec.{
  Json, closed, default_decoder, decode, encode_frame, to_be_bytes,
}
use life_sub.Capture.Protocol.Validate.{validate_header, validate_audio_payload}
use life_sub.Capture.Protocol.RoundTrip.{decode-encode_frame}
use life_sub.Capture.Protocol.Sequence.{observe_all, default_validator, Accepted, observe_all_exact}

abbrev code_of : Source → ℕ
code_of microphone = 0
code_of system_audio = 1

abbrev source_of : ℕ → Source
source_of zero = microphone
source_of _ = system_audio

abbrev write_frame : AudioFrame → Bool → Option (List ℕ)
write_frame f true =
    some (code_of f.source ∷ f.sequence ∷ f.sample_position ∷ f.host_time ∷ f.channel_count ∷ [])
write_frame f false = none

-- A stand-in for the JSON of the frames without flags.
abbrev write_header : CaptureHeader → Option (List ℕ)
write_header (audio_frame f) = write_frame f (is_empty f.discontinuity_flags)
write_header _ = none

abbrev read_header : List ℕ → Option CaptureHeader
read_header (s ∷ n ∷ p ∷ t ∷ c ∷ []) = some (
    audio_frame (record {
      source = source_of s;
      sequence = n;
      sample_position = p;
      host_time = t;
      format = s16_le;
      channel_count = c;
      discontinuity_flags = [];
    }))
read_header _ = none

abbrev small_json : Json CaptureHeader
small_json = record { to_vec = write_header; from_slice = read_header }

small_json-reads :
    (h : CaptureHeader) (bs : List ℕ)
    → small_json.to_vec h ≡ some bs
    → small_json.from_slice bs ≡ some h
small_json-reads h bs e = ground arith

abbrev frame_of : Source → ℕ → AudioFrame
frame_of s n = record {
  source = s;
  sequence = n;
  sample_position = 7;
  host_time = 9;
  format = s16_le;
  channel_count = 1;
  discontinuity_flags = [];
}

decode-encode_frame_example :
    decode small_json default_decoder (record {
      bytes =
          (0 ∷ 0 ∷ 0 ∷ 5 ∷ 0 ∷ 3 ∷ 7 ∷ 9 ∷ 1 ∷ 0 ∷ 0 ∷ 0 ∷ 4 ∷ 11 ∷ 12 ∷ 13 ∷ 14 ∷ []) ++ (99 ∷ []);
      ending = closed;
    })
    ≡ ok (
      record { header = audio_frame (frame_of microphone 3); payload = 11 ∷ 12 ∷ 13 ∷ 14 ∷ [] },
      record { bytes = 99 ∷ []; ending = closed },
    )
unfolding encode_frame validate_header validate_audio_payload checked_add to_be_bytes
decode-encode_frame_example =
    decode-encode_frame small_json (audio_frame (frame_of microphone 3)) (11 ∷ 12 ∷ 13 ∷ 14 ∷ [])
      (0 ∷ 0 ∷ 0 ∷ 5 ∷ 0 ∷ 3 ∷ 7 ∷ 9 ∷ 1 ∷ 0 ∷ 0 ∷ 0 ∷ 4 ∷ 11 ∷ 12 ∷ 13 ∷ 14 ∷ []) (99 ∷ []) closed
      (small_json-reads (audio_frame (frame_of microphone 3))) refl

abbrev greeting : Hello
greeting = record {
  protocol_version = 2;
  helper_pid = 41;
  launch_nonce = "n";
  supported_sources = microphone ∷ system_audio ∷ [];
  capabilities =
      device_discovery ∷ exact_microphone_selection ∷ microphone_probe ∷ permission_diagnostics
      ∷ [];
}

abbrev connection : List CaptureHeader
connection =
    hello greeting
    ∷ audio_frame (frame_of microphone 3)
    ∷ audio_frame (frame_of system_audio 1)
    ∷ audio_frame (frame_of microphone 4)
    ∷ shutdown_ack
    ∷ []

observe_all_exact_example :
    (is_ok (observe_all connection default_validator) ≡ true) ↔ Accepted connection
observe_all_exact_example = observe_all_exact connection
