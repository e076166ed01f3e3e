-- ===== src/Api/Cursor.antt =====
-- src-tauri/src/api/cursor.rs. Bytes, hexadecimal texts, JSON and RFC 3339 are other packages', and are an
-- argument; a time is a number of nanoseconds, and the clock a reading.
pub mod Checks
mod Tests
use life_sub.Common.{
  ℕ, ◌+◌, ◌*◌, Bool, true, false, not, Option, none, some, List, String, Result, ok, err, ◌==◌, ltb,
  if◌then◌else◌, str_eq,
}

pub record Cursor (K : Type 0) : Type 0 where
  pub version : ℕ
  pub contract : String
  pub method : String
  pub principal_id : String
  pub limit : ℕ
  pub last_keyset : Option K
  pub catalog_instance_id : String
  pub issued_at : String
  pub expires_at : String

pub data CursorError : Type 0 where
  invalid_cursor cursor_expired cursor_scope_mismatch cursor_stale : CursorError

-- The other packages: JSON of a cursor, the hexadecimal text of a text, and RFC 3339.
pub record Formats (K : Type 0) : Type 0 where
  pub to_json : Cursor K → String
  pub from_json : String → Option (Cursor K)
  pub to_hex : String → String
  pub from_hex : String → Option String
  pub to_rfc3339 : ℕ → String
  pub parse_from_rfc3339 : String → Option ℕ

module _ {K : Type 0} (formats : Formats K) where
  unfoldable pub new_cursor : String → String → String → ℕ → String → ℕ → ℕ → Cursor K
  new_cursor contract method principal_id limit instance_id ttl_seconds now = record {
    version = 1;
    contract = contract;
    method = method;
    principal_id = principal_id;
    limit = limit;
    last_keyset = none;
    catalog_instance_id = instance_id;
    issued_at = formats.to_rfc3339 now;
    expires_at = formats.to_rfc3339 (now + ttl_seconds * 1000000000);
  }

  unfoldable pub encode : Cursor K → String
  encode c = formats.to_hex (formats.to_json c)

  -- The checks of a decoded cursor, in the order of the code.
  unfoldable pub check_cursor :
      String → String → String → String → ℕ → Cursor K → Result CursorError (Cursor K)
  check_cursor contract method principal_id instance_id now c =
      if not (c.version == 1)
      then err invalid_cursor
      else (if not (str_eq c.contract contract)
          then err cursor_scope_mismatch
          else (if not (str_eq c.method method)
              then err cursor_scope_mismatch
              else (if not (str_eq c.principal_id principal_id)
                  then err cursor_scope_mismatch
                  else (if not (str_eq c.catalog_instance_id instance_id)
                      then err cursor_stale
                      else (elim (formats.parse_from_rfc3339 c.expires_at) [
                        | none ↦ err cursor_expired
                        | some expires_at ↦ if ltb expires_at now then err cursor_expired else ok c
                      ])))))

  unfoldable pub decode :
      String → String → String → String → String → ℕ → Result CursorError (Cursor K)
  unfolding check_cursor
  decode encoded contract method principal_id instance_id now = elim (formats.from_hex encoded) [
    | none ↦ err invalid_cursor
    | some json ↦ elim (formats.from_json json) [
      | none ↦ err invalid_cursor
      | some c ↦ check_cursor contract method principal_id instance_id now c
    ]
  ]
