-- ===== src/Evidence/Decimals.antt =====
-- What src-tauri/src/service/evidence_uri.rs and src-tauri/src/domain.rs use of i64 and text: how a number is written in
-- decimal digits, and how it is read. An i64 is its bits.
use Prim.Native.Char.{Char, code}
use life_sub.Common.{
  ℕ, zero, suc, ◌+◌, ◌-◌, ◌*◌, ◌/◌, ◌%◌, ◌^◌, Bool, ◌&&◌, Option, none, some, String, ltb, leb,
  ◌==◌, if◌then◌else◌,
}
use life_sub.Capture.Seal.Insert.{is_negative}

unfoldable pub digit : ℕ → Char
digit n =
    if n == 0
    then "0"
    else (if n == 1
        then "1"
        else (if n == 2
            then "2"
            else (if n == 3
                then "3"
                else (if n == 4
                    then "4"
                    else (if n == 5
                        then "5"
                        else (if n == 6
                            then "6"
                            else (if n == 7 then "7" else (if n == 8 then "8" else "9"))))))))

-- The digits of a number before a text; a number below 10 ^ fuel has at most `fuel` of them.
unfoldable pub digits : ℕ → ℕ → String → String
digits zero n rest = rest
digits (suc fuel) n rest =
    let more = digits fuel (n / 10) (String.◌∷◌ (digit (n % 10)) rest) in
    if ltb n 10 then String.◌∷◌ (digit n) rest else more

unfoldable pub show_i64 : ℕ → String
show_i64 bits =
    if is_negative bits then String.◌∷◌ "-" (digits 20 (2 ^ 64 - bits) "") else digits 20 bits ""

abbrev pub is_digit : ℕ → Bool
is_digit c = leb 48 c && leb c 57

-- The number that the digits of a text make after those that are read.
unfoldable pub read_digits : ℕ → String → Option ℕ
read_digits n String.[] = some n
read_digits n (String.◌∷◌ c s) =
    let rest = read_digits (n * 10 + (code c - 48)) s in if is_digit (code c) then rest else none

unfoldable pub read_number : String → Option ℕ
read_number String.[] = none
read_number (String.◌∷◌ c s) = read_digits 0 (String.◌∷◌ c s)

-- A number past the last one is refused, whichever digit shows it.
abbrev pub at_most : ℕ → Option ℕ → Option ℕ
at_most last none = none
at_most last (some n) = if leb n last then some n else none

abbrev pub negated : Option ℕ → Option ℕ
negated none = none
negated (some n) = some ((2 ^ 64 - n) % 2 ^ 64)

-- `str::parse::<i64>`
unfoldable pub parse_i64 : String → Option ℕ
parse_i64 String.[] = none
parse_i64 (String.◌∷◌ c s) =
    if code c == 45
    then negated (at_most (2 ^ 63) (read_number s))
    else (if code c == 43
        then at_most (2 ^ 63 - 1) (read_number s)
        else at_most (2 ^ 63 - 1) (read_number (String.◌∷◌ c s)))
