-- ===== src/Evidence/RoundTrip.antt =====
-- src-tauri/src/service/evidence_uri.rs: the addresses that a session and a segment have are read back.
use Prim.Native.Char.{code}
use life_sub.Common.{
  ℕ, zero, suc, ◌+◌, ◌-◌, ◌*◌, ◌/◌, ◌%◌, ◌^◌, ◌<◌, ◌≤◌, ◌≡◌, refl, sym, ap, subst, ◌∙◌, inl, inr,
  true, false, not, some, String, ok, ltb, ◌==◌, arith, Bool-cases, str_is_empty,
}
use life_sub.Capture.Seal.{strip_prefix, all_codes}
use life_sub.Domain.{CaptureSession}
use life_sub.Transcripts.{TranscriptSegment}
use life_sub.Evidence.Decimals.{digit, digits, show_i64, read_digits, read_number, parse_i64}
use life_sub.Evidence.{
  record_target, segment_target, join, session_evidence_uri, segment_evidence_uri, split_once,
  non_empty, segment_from, or_whole, parse_segment, parse_body, parse_evidence_uri,
}

code-digit : (n : ℕ) → n < 10 → code (digit n) ≡ n + 48
unfolding digit
code-digit zero h = refl
code-digit (suc zero) h = refl
code-digit (suc (suc zero)) h = refl
code-digit (suc (suc (suc zero))) h = refl
code-digit (suc (suc (suc (suc zero)))) h = refl
code-digit (suc (suc (suc (suc (suc zero))))) h = refl
code-digit (suc (suc (suc (suc (suc (suc zero)))))) h = refl
code-digit (suc (suc (suc (suc (suc (suc (suc zero))))))) h = refl
code-digit (suc (suc (suc (suc (suc (suc (suc (suc zero)))))))) h = refl
code-digit (suc (suc (suc (suc (suc (suc (suc (suc (suc zero))))))))) h = refl
code-digit (suc (suc (suc (suc (suc (suc (suc (suc (suc (suc n)))))))))) h = omega arith

read_digits-digit :
    (acc n : ℕ) (rest : String)
    → n < 10
    → read_digits acc (String.◌∷◌ (digit n) rest) ≡ read_digits (acc * 10 + n) rest
unfolding read_digits
read_digits-digit acc n rest h = ground (arith, code-digit n h)

-- The least number that has more digits than the fuel.
abbrev limit : ℕ → ℕ
limit zero = 1
limit (suc fuel) = 10 * limit fuel

digits-small :
    (fuel n : ℕ) (rest : String) → n < 10 → digits (suc fuel) n rest ≡ String.◌∷◌ (digit n) rest
unfolding digits
digits-small fuel n rest h = ground arith

digits-large :
    (fuel n : ℕ) (rest : String)
    → 10 ≤ n
    → digits (suc fuel) n rest ≡ digits fuel (n / 10) (String.◌∷◌ (digit (n % 10)) rest)
unfolding digits
digits-large fuel n rest h = ground arith

read_small :
    (fuel n : ℕ) (rest : String)
    → n < 10
    → read_digits 0 (digits (suc fuel) n rest) ≡ read_digits n rest
read_small fuel n rest h =
    ap (read_digits 0) (digits-small fuel n rest h)
    ∙ read_digits-digit 0 n rest h
    ∙ ap (λ m. read_digits m rest) (omega arith)

read_digits-digits :
    (fuel n : ℕ) (rest : String)
    → n < limit fuel
    → read_digits 0 (digits (suc fuel) n rest) ≡ read_digits n rest
read_digits-digits zero n rest h = read_small zero n rest (omega arith)
read_digits-digits (suc fuel) n rest h = elim (Bool-cases (ltb n 10)) [
  | inl e ↦ read_small (suc fuel) n rest (ground arith)
  | inr e ↦
      ap (read_digits 0) (digits-large (suc fuel) n rest (ground arith))
      ∙ read_digits-digits fuel (n / 10) (String.◌∷◌ (digit (n % 10)) rest) (omega arith)
      ∙ read_digits-digit (n / 10) (n % 10) rest (omega arith)
      ∙ ap (λ m. read_digits m rest) (omega arith)
]

-- The first character of a number is a digit.
data StartsWithDigit : String → Type 0 where
  starts : (n : ℕ) (s : String) → n < 10 → StartsWithDigit (String.◌∷◌ (digit n) s)

digits-StartsWithDigit :
    (fuel n : ℕ) (rest : String) → n < limit fuel → StartsWithDigit (digits (suc fuel) n rest)
digits-StartsWithDigit zero n rest h =
    subst StartsWithDigit (sym (digits-small zero n rest (omega arith)))
      (starts n rest (omega arith))
digits-StartsWithDigit (suc fuel) n rest h = elim (Bool-cases (ltb n 10)) [
  | inl e ↦
      subst StartsWithDigit (sym (digits-small (suc fuel) n rest (ground arith)))
        (starts n rest (ground arith))
  | inr e ↦
      subst StartsWithDigit (sym (digits-large (suc fuel) n rest (ground arith)))
        (digits-StartsWithDigit fuel (n / 10) (String.◌∷◌ (digit (n % 10)) rest) (omega arith))
]

parse_digits :
    (s : String) (n : ℕ)
    → StartsWithDigit s
    → read_digits 0 s ≡ some n
    → n ≤ 2 ^ 63 - 1
    → parse_i64 s ≡ some n
unfolding parse_i64 read_number
parse_digits s n (starts d rest small) reads bounded = ground (arith, code-digit d small)

show_i64-digits : (n : ℕ) → n < 2 ^ 63 → show_i64 n ≡ digits 20 n ""
unfolding show_i64
show_i64-digits n h = ground arith

-- A number that is not negative is read as it is shown.
parse-show_i64 : (n : ℕ) → n < 2 ^ 63 → parse_i64 (show_i64 n) ≡ some n
unfolding read_digits
parse-show_i64 n h =
    ap parse_i64 (show_i64-digits n h)
    ∙ parse_digits (digits 20 n "") n (digits-StartsWithDigit 19 n "" (omega arith))
        (read_digits-digits 19 n "" (omega arith)) (omega arith)

split_once-join :
    (id rest : String)
    → all_codes (λ c. not (c == 63)) id ≡ true
    → split_once 63 (join id (join "?" rest)) ≡ some (id, rest)
unfolding split_once join all_codes
split_once-join String.[] rest h = refl
split_once-join (String.◌∷◌ c s) rest h = ground (arith, split_once-join s rest)

segment_from-shown :
    (id : String) (revision : ℕ)
    → str_is_empty id ≡ false
    → revision < 2 ^ 63
    → segment_from (id, join "revision=" (show_i64 revision))
      ≡ ok (segment_target id (some revision))
unfolding non_empty strip_prefix join
segment_from-shown id revision filled small = rw (filled, parse-show_i64 revision small) refl

parse_segment-shown :
    (id : String) (revision : ℕ)
    → str_is_empty id ≡ false
    → all_codes (λ c. not (c == 63)) id ≡ true
    → revision < 2 ^ 63
    → parse_segment (join id (join "?revision=" (show_i64 revision)))
      ≡ ok (segment_target id (some revision))
unfolding parse_segment join
parse_segment-shown id revision filled plain small =
    ap (λ parts. segment_from (or_whole (join id (join "?revision=" (show_i64 revision))) parts))
      (split_once-join id (join "revision=" (show_i64 revision)) plain)
    ∙ segment_from-shown id revision filled small

-- The address of a session with an identity is read as a record with that identity, and the address of a
-- segment in a revision as a segment with that identity and that revision, if the identity is there and has no
-- question mark, and the revision is not negative.
pub parse_evidence_uri-shown :
    (session : CaptureSession) (segment : TranscriptSegment) (revision : ℕ)
    → str_is_empty session.id ≡ false
    → str_is_empty segment.id ≡ false
    → all_codes (λ c. not (c == 63)) segment.id ≡ true
    → revision < 2 ^ 63
    → (parse_evidence_uri (session_evidence_uri session) ≡ ok (record_target session.id))
      × (parse_evidence_uri (segment_evidence_uri revision segment)
          ≡ ok (segment_target segment.id (some revision)))
unfolding parse_evidence_uri parse_body session_evidence_uri segment_evidence_uri non_empty
    strip_prefix join
parse_evidence_uri-shown session segment revision filled filled' plain small =
    (rw filled refl, parse_segment-shown segment.id revision filled' plain small)
