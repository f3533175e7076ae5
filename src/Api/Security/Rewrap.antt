-- ===== src/Api/Security/Rewrap.antt =====
-- app/api/security_api.py: what the loop over the credentials leaves in the table.
use restream_plus.Base.Dict.{get, IsUnique, get-put}
use restream_plus.Repositories.Credentials.{CredentialRow, rewrapped, rewrap, Credentials}
use restream_plus.Crypto.Aead.{
  aead_nonce_length, aad_credential_stream_key_v1, Aes, build_credential_aad, encrypt,
  decrypt-encrypt, decrypt,
}
use restream_plus.Auth.KeyMaterial.{kdf_salt_length, Bytes}
use restream_plus.Api.Security.{unwrap, rewrap_row, rewrap_all}
use restream_plus.Repositories.Credentials.{rewrap}
use restream_plus.Base.{
  string_eq, [], ◌∷◌, refl, length, ◌≡◌, Result-cases, inr, inl, ◌++◌, String, ok, some, none, List,
  if◌then◌else◌, same_refl, ap, ◌==◌, Bool-cases, sym, ◌∙◌,
}

-- The same plaintext under the new key; the other columns as they were.
pub record IsRekeyed (aes : Aes) (old_kek new_kek : Bytes) (row row' : CredentialRow) : Type 0 where
  pub plaintext : Bytes
  pub was : unwrap aes old_kek row ≡ ok plaintext
  pub now_is : unwrap aes new_kek row' ≡ ok plaintext
  pub others_stay : row' ≡ rewrapped row'.ciphertext row'.nonce row'.salt row

-- The lengths of `token_bytes`.
abbrev pub IsDrawn : (String → Bytes × Bytes) → Type 0
IsDrawn draws =
    (id : String)
    → (length (draws id).0 ≡ kdf_salt_length) × (length (draws id).1 ≡ aead_nonce_length)

module _ (aes : Aes) (old_kek new_kek : Bytes) (draws : String → Bytes × Bytes)
    (drawn : IsDrawn draws) where
  aad_of_fresh :
      (id : String)
      → build_credential_aad (draws id).0 ≡ ok (aad_credential_stream_key_v1 ++ (draws id).0)
  unfolding build_credential_aad
  aad_of_fresh id = rw (build_credential_aad, (drawn id).0) refl

  unwrap_fresh :
      (id : String) (row : CredentialRow) (plaintext : Bytes) (sealed : Bytes × Bytes)
      → decrypt aes new_kek sealed.0 sealed.1 (aad_credential_stream_key_v1 ++ (draws id).0)
        ≡ ok plaintext
      → unwrap aes new_kek (rewrapped sealed.1 sealed.0 (draws id).0 row) ≡ ok plaintext
  unfolding unwrap
  unwrap_fresh id row plaintext sealed h = rw (unwrap, aad_of_fresh id) h

  rewrap_row-IsRekeyed :
      (id : String) (row row' : CredentialRow)
      → rewrap_row aes old_kek new_kek draws id row ≡ ok row'
      → IsRekeyed aes old_kek new_kek row row'
  unfolding rewrap_row
  rewrap_row-IsRekeyed id row row' h = elim (Result-cases (unwrap aes old_kek row)) [
    | inr (e, q) ↦ cc (rw (q, rewrap_row) at h)
    | inl (plaintext, q) ↦
        let aad = aad_credential_stream_key_v1 ++ (draws id).0 in
        elim (Result-cases (encrypt aes new_kek (draws id).1 plaintext aad)) [
          | inr (e, c) ↦ cc (rw (q, aad_of_fresh id, c, rewrap_row) at h)
          | inl (sealed, c) ↦
              let made = rewrapped sealed.1 sealed.0 (draws id).0 row in
              let e : made ≡ row' = cc (rw (q, aad_of_fresh id, c, rewrap_row) at h) in
              rw (← e) (record {
                plaintext = plaintext;
                was = q;
                now_is =
                    unwrap_fresh id row plaintext sealed (
                      decrypt-encrypt aes new_kek (draws id).1 plaintext aad sealed (drawn id).1 c);
                others_stay = refl;
              })
        ]
  ]

  -- A row that the loop has still to reach stands in the table as it was listed.
  abbrev IsListed : List (String × CredentialRow) → Credentials → Type 0
  IsListed rows table =
      (j : String) (row : CredentialRow) → get j rows ≡ some row → get j table ≡ some row

  get-rewrap :
      (id j : String) (a b c : Bytes) (row : CredentialRow) (table : Credentials)
      → get id table ≡ some row
      → get j (rewrap id a b c table)
        ≡ (if id == j then some (rewrapped a b c row) else get j table)
  unfolding rewrap
  get-rewrap id j a b c row table h = rw (rewrap, h) (get-put id j (rewrapped a b c row) table)

  IsListed-rewrap :
      (id : String) (a b c : Bytes) (row : CredentialRow) (rows : List (String × CredentialRow))
      (table : Credentials)
      → get id rows ≡ none
      → IsListed ((id, row) ∷ rows) table
      → IsListed rows (rewrap id a b c table)
  unfolding get
  IsListed-rewrap id a b c row rows table unique listed j found h =
      let here =
        get-rewrap id j a b c row table (listed id row (rw (same_refl string_eq id) refl)) in
      elim (Bool-cases (id == j)) [
        | inl same ↦ cc (unique, h, (string_eq.same_iff id j).0 same)
        | inr different ↦ here ∙ rw different (listed j found (rw different h))
      ]

  rewrap_all_keeps :
      (rows : List (String × CredentialRow)) (table after : Credentials) (j : String)
      → IsListed rows table
      → IsUnique rows
      → get j rows ≡ none
      → rewrap_all aes old_kek new_kek draws rows table ≡ ok after
      → get j after ≡ get j table
  unfolding rewrap_all get
  rewrap_all_keeps [] table after j listed unique unseen h = ap (get j) (cc h)
  rewrap_all_keeps ((id, first) ∷ rows) table after j listed unique unseen h =
      elim (Result-cases (rewrap_row aes old_kek new_kek draws id first)) [
        | inr (e, q) ↦ cc (rw (q, rewrap_all) at h)
        | inl (row', q) ↦
            let table1 = rewrap id row'.ciphertext row'.nonce row'.salt table in
            let here =
              get-rewrap id j row'.ciphertext row'.nonce row'.salt first table
                (listed id first (rw (same_refl string_eq id) refl)) in
            let listed1 =
              IsListed-rewrap id row'.ciphertext row'.nonce row'.salt first rows table unique.0
                listed in
            elim (Bool-cases (id == j)) [
              | inl same ↦ cc (rw same at unseen)
              | inr different ↦
                  rewrap_all_keeps rows table1 after j listed1 unique.1 (rw different at unseen)
                    (rw (q, rewrap_all) at h)
                  ∙ here
                  ∙ rw different refl
            ]
      ]

  -- Every row that was listed is in the table that the loop leaves, with the same plaintext under the new
  -- key.
  pub rewrap_all-IsRekeyed :
      (rows : List (String × CredentialRow)) (table after : Credentials)
      → IsUnique rows
      → IsListed rows table
      → rewrap_all aes old_kek new_kek draws rows table ≡ ok after
      → (j : String) (row : CredentialRow) → get j rows ≡ some row
      → (row' : CredentialRow) × (get j after ≡ some row') × IsRekeyed aes old_kek new_kek row row'
  unfolding rewrap_all get
  rewrap_all-IsRekeyed [] table after unique listed h j row found = cc
  rewrap_all-IsRekeyed ((id, first) ∷ rows) table after unique listed h j row found =
      elim (Result-cases (rewrap_row aes old_kek new_kek draws id first)) [
        | inr (e, q) ↦ cc (rw (q, rewrap_all) at h)
        | inl (row', q) ↦
            let table1 = rewrap id row'.ciphertext row'.nonce row'.salt table in
            let listed1 =
              IsListed-rewrap id row'.ciphertext row'.nonce row'.salt first rows table unique.0
                listed in
            let rest = rw (q, rewrap_all) at h in
            elim (Bool-cases (id == j)) [
              | inr different ↦
                  rewrap_all-IsRekeyed rows table1 after unique.1 listed1 rest j row
                    (rw different at found)
              | inl same ↦
                  let e : first ≡ row = cc (rw same at found) in
                  let id_is = (string_eq.same_iff id j).0 same in
                  let rekeyed = rewrap_row-IsRekeyed id first row' q in
                  let here =
                    get-rewrap id id row'.ciphertext row'.nonce row'.salt first table
                      (listed id first (rw (same_refl string_eq id) refl))
                    ∙ rw (same_refl string_eq id) (ap some (sym rekeyed.others_stay)) in
                  let kept = rewrap_all_keeps rows table1 after id listed1 unique.1 unique.0 rest in
                  rw (← e, ← id_is) (row', kept ∙ here, rekeyed)
            ]
      ]
