-- ===== src/Transcripts/Integers.antt =====
-- What src-tauri/src/catalog.rs and src-tauri/src/catalog/publication.rs use of i64, on its bits.
use life_sub.Common.{
  ℕ, ◌+◌, ◌-◌, ◌%◌, ◌^◌, Bool, not, ◌&&◌, ◌||◌, Option, none, some, if◌then◌else◌,
}
use life_sub.Capture.Seal.Insert.{is_negative}

abbrev pub same_sign : ℕ → ℕ → Bool
same_sign a b = (is_negative a && is_negative b) || (not (is_negative a) && not (is_negative b))

unfoldable pub i64_checked_add : ℕ → ℕ → Option ℕ
i64_checked_add a b =
    let sum = (a + b) % 2 ^ 64 in if same_sign a b && not (same_sign a sum) then none else some sum

unfoldable pub i64_saturating_sub : ℕ → ℕ → ℕ
i64_saturating_sub a b =
    let difference = (a + (2 ^ 64 - b)) % 2 ^ 64 in
    if not (same_sign a b) && not (same_sign a difference)
    then (if is_negative a then 2 ^ 63 else 2 ^ 63 - 1)
    else difference
