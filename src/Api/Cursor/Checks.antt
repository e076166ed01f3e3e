-- ===== src/Api/Cursor/Checks.antt =====
-- src-tauri/src/api/cursor.rs: which cursors are accepted.
use life_sub.Common.{
  ℕ, ◌+◌, ◌*◌, ◌≡◌, ◌≤◌, ◌↔◌, refl, sym, ◌∙◌, inl, inr, true, false, some, String, ok, err, ◌==◌,
  ltb, if◌then◌else◌, str_eq, str_eq_iff, arith, Option-cases,
}
use life_sub.Api.Cursor.{
  Cursor, cursor_expired, cursor_scope_mismatch, Formats, new_cursor, encode, check_cursor, decode,
}

module _ {K : Type 0} (formats : Formats K) where
  -- The packages give back what they write for a cursor.
  pub record IsFaithful (c : Cursor K) : Type 0 where
    pub json : formats.from_json (formats.to_json c) ≡ some c
    pub hex : formats.from_hex (formats.to_hex (formats.to_json c)) ≡ some (formats.to_json c)

  decode_encoded :
      (contract method principal_id instance_id : String) (now : ℕ) (c : Cursor K)
      → IsFaithful c
      → decode formats (encode formats c) contract method principal_id instance_id now
        ≡ check_cursor formats contract method principal_id instance_id now c
  unfolding decode encode
  decode_encoded contract method principal_id instance_id now c faithful =
      rw (faithful.hex, decode) (rw faithful.json refl)

  -- Where a cursor is of version 1 and names the contract, the method, the principal and the catalog, and its
  -- time has not come.
  abbrev pub IsCurrent : String → String → String → String → ℕ → Cursor K → Type 0
  IsCurrent contract method principal_id instance_id now c =
      (c.version ≡ 1)
      × (c.contract ≡ contract)
      × (c.method ≡ method)
      × (c.principal_id ≡ principal_id)
      × (c.catalog_instance_id ≡ instance_id)
      × ((t : ℕ) × (formats.parse_from_rfc3339 c.expires_at ≡ some t) × (now ≤ t))

  accepted :
      (contract method principal_id instance_id : String) (now : ℕ) (c : Cursor K)
      → IsCurrent contract method principal_id instance_id now c
      → check_cursor formats contract method principal_id instance_id now c ≡ ok c
  unfolding check_cursor
  accepted contract method principal_id instance_id now c (v, a, b, p, i, (t, time, late)) =
      rw
        (
          (str_eq_iff c.contract contract).1 a,
          (str_eq_iff c.method method).1 b,
          (str_eq_iff c.principal_id principal_id).1 p,
          (str_eq_iff c.catalog_instance_id instance_id).1 i,
          time,
        )
        (ground arith)

  current :
      (contract method principal_id instance_id : String) (now : ℕ) (c d : Cursor K)
      → check_cursor formats contract method principal_id instance_id now c ≡ ok d
      → IsCurrent contract method principal_id instance_id now c
  unfolding check_cursor
  current contract method principal_id instance_id now c d h =
      let same_version : (c.version == 1) ≡ true = ground arith in
      (
        ground arith,
        (str_eq_iff c.contract contract).0 (ground arith),
        (str_eq_iff c.method method).0 (ground arith),
        (str_eq_iff c.principal_id principal_id).0 (ground arith),
        (str_eq_iff c.catalog_instance_id instance_id).0 (ground arith),
        (elim (Option-cases (formats.parse_from_rfc3339 c.expires_at)) [
          | inl e ↦ ground arith
          | inr (t, e) ↦ (t, e, ground arith)
        ]),
      )

  -- A client's own encoding of a cursor is accepted exactly where the cursor is of version 1, names the contract,
  -- the method, the principal and the catalog, and has not expired: nothing in it is secret. The packages give
  -- back what they write.
  pub decode-encode_exact :
      (contract method principal_id instance_id : String) (now : ℕ) (c : Cursor K)
      → IsFaithful c
      → (decode formats (encode formats c) contract method principal_id instance_id now ≡ ok c)
        ↔ IsCurrent contract method principal_id instance_id now c
  decode-encode_exact contract method principal_id instance_id now c faithful =
      let same = decode_encoded contract method principal_id instance_id now c faithful in
      (
        (λ h. current contract method principal_id instance_id now c c (sym same ∙ h)),
        λ h. same ∙ accepted contract method principal_id instance_id now c h,
      )

  -- A cursor that is issued is accepted for its own contract, method, principal and catalog until its time to
  -- live is over, and is then expired; and it is a mismatch of scope for any other principal at any time. The
  -- packages give back the cursor and the time at which it expires.
  pub decode-new_cursor :
      (contract method principal_id instance_id other : String) (limit ttl issued now : ℕ)
      → IsFaithful (new_cursor formats contract method principal_id limit instance_id ttl issued)
      → formats.parse_from_rfc3339 (formats.to_rfc3339 (issued + ttl * 1000000000))
        ≡ some (issued + ttl * 1000000000)
      → str_eq principal_id other ≡ false
      → (decode formats
            (encode formats
              (new_cursor formats contract method principal_id limit instance_id ttl issued))
            contract
            method
            principal_id
            instance_id
            now
          ≡ (if ltb (issued + ttl * 1000000000) now
              then err cursor_expired
              else ok
                  (new_cursor formats contract method principal_id limit instance_id ttl issued)))
        × (decode formats
              (encode formats
                (new_cursor formats contract method principal_id limit instance_id ttl issued))
              contract
              method
              other
              instance_id
              now
            ≡ err cursor_scope_mismatch)
  unfolding new_cursor check_cursor
  decode-new_cursor contract method principal_id instance_id other limit ttl issued now faithful
        time different =
      let c = new_cursor formats contract method principal_id limit instance_id ttl issued in
      (
        decode_encoded contract method principal_id instance_id now c faithful
            ∙ rw
                (
                  (str_eq_iff contract contract).1 refl,
                  (str_eq_iff method method).1 refl,
                  (str_eq_iff principal_id principal_id).1 refl,
                  (str_eq_iff instance_id instance_id).1 refl,
                  time,
                )
                refl,
        decode_encoded contract method other instance_id now c faithful
            ∙ rw
                (
                  (str_eq_iff contract contract).1 refl,
                  (str_eq_iff method method).1 refl,
                  different,
                )
                refl,
      )
