-- ===== src/Api/Cursor/Tests.antt =====
-- src-tauri/src/api/cursor.rs: a cursor of one list.
use life_sub.Common.{◌+◌, ◌*◌, ◌≡◌, ◌↔◌, refl, none, some, ok, err, ltb, if◌then◌else◌}
use life_sub.Api.Cursor.{
  Cursor, cursor_expired, cursor_scope_mismatch, Formats, new_cursor, encode, decode,
}
use life_sub.Api.Cursor.Checks.{IsCurrent, decode-encode_exact, decode-new_cursor}

abbrev issued : Cursor (Unit {0})
issued = record {
  version = 1;
  contract = "agent.tool";
  method = "list_operations";
  principal_id = "agent-1";
  limit = 10;
  last_keyset = none;
  catalog_instance_id = "i";
  issued_at = "t";
  expires_at = "t";
}

abbrev formats : Formats (Unit {0})
formats = record {
  to_json = λ c. c.principal_id;
  from_json = λ s. some issued;
  to_hex = λ s. s;
  from_hex = λ s. some s;
  to_rfc3339 = λ t. "t";
  parse_from_rfc3339 = λ s. some 300000000007;
}

decode-encode_exact_example :
    (decode formats (encode formats issued) "agent.tool" "list_operations" "agent-1" "i" 8
      ≡ ok issued)
    ↔ IsCurrent formats "agent.tool" "list_operations" "agent-1" "i" 8 issued
decode-encode_exact_example =
    decode-encode_exact formats "agent.tool" "list_operations" "agent-1" "i" 8 issued
      (record { json = refl; hex = refl })

decode-new_cursor_example :
    (decode formats
        (encode formats (new_cursor formats "agent.tool" "list_operations" "agent-1" 10 "i" 300 7))
        "agent.tool"
        "list_operations"
        "agent-1"
        "i"
        8
      ≡ (if ltb (7 + 300 * 1000000000) 8
          then err cursor_expired
          else ok (new_cursor formats "agent.tool" "list_operations" "agent-1" 10 "i" 300 7)))
    × (decode formats
          (encode formats
            (new_cursor formats "agent.tool" "list_operations" "agent-1" 10 "i" 300 7))
          "agent.tool"
          "list_operations"
          "agent-2"
          "i"
          8
        ≡ err cursor_scope_mismatch)
unfolding new_cursor
decode-new_cursor_example =
    decode-new_cursor formats "agent.tool" "list_operations" "agent-1" "i" "agent-2" 10 300 7 8
      (record { json = refl; hex = refl }) refl refl
