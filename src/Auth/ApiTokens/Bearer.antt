-- ===== src/Auth/ApiTokens/Bearer.antt =====
-- app/auth/api_tokens.py: a token from its creation to its revocation.
use restream_plus.Auth.ApiTokens.Shape.{IsUrlSafe, has_token_shape-generated, extract-generated}
use restream_plus.Base.Dict.{IsUnique, get, contains, put, get-put, get-put_self, put-IsUnique}
use restream_plus.Auth.KeyMaterial.{is_empty, Bytes, DerivedKeys}
use restream_plus.Auth.ApiTokens.{
  extract_bearer_from_authorization, api_token_prefix, create_token, CreatedApiToken,
  compute_api_token_hash, strip, verify_bearer, revoke_token,
}
use restream_plus.Repositories.ApiTokens.{
  create, get_active_by_token_hash, ApiTokens, get_active-Found, get_active_complete,
  unused-differs, ApiTokenRow, hash_used, is_active, dto_of, Found, ApiTokenDto, revoke_row,
}
use restream_plus.Base.Texts.{text_eq, Text, codes}
use restream_plus.Base.{
  ℕ, string_eq, refl, ◌≡◌, ◌++◌, Bool-cases, arith, inl, inr, true, some, false, ◌==◌, Option-cases,
  ◌||◌, sym, ◌∙◌, String, ok, none, ap,
}

-- The only active row under a hash that was unused before one row came in.
lone :
    (h : Bytes) (id : String) (before after : ApiTokens) (dto : ApiTokenDto)
    → hash_used h before ≡ false
    → ((j : String) → (id == j) ≡ false → get j after ≡ get j before)
    → Found h after dto
    → id ≡ dto.id
lone h id before after dto unused others f = elim (Bool-cases (id == dto.id)) [
  | inl same ↦ (string_eq.same_iff id dto.id).0 same
  | inr different ↦ absurd (
      unused-differs h dto.id f.row before unused (sym (others dto.id different) ∙ f.stored)
        f.hash_is)
]

module _ (hmac_sha256 : Bytes → Text → Bytes) (keys : DerivedKeys) where
  abbrev hash_of : Text → Bytes
  hash_of random = compute_api_token_hash hmac_sha256 keys (api_token_prefix ++ random)

  -- What a creation that succeeds has done.
  record Created (user_id : String) (label random : Text) (token_id : String) (now : ℕ)
      (tokens after : ApiTokens) (created : CreatedApiToken) : Type 0 where
    row : ApiTokenRow
    hash_is : row.token_hash ≡ hash_of random
    active : is_active row ≡ true
    dto_is : created.dto ≡ dto_of token_id row
    plaintext_is : created.plaintext ≡ api_token_prefix ++ random
    unused : hash_used (hash_of random) tokens ≡ false
    after_is : after ≡ put token_id row tokens

  create_token-Created :
      (user_id : String) (label random : Text) (token_id : String) (now : ℕ) (tokens : ApiTokens)
      (created : CreatedApiToken)
      → (create_token hmac_sha256 keys user_id label random token_id now tokens).1 ≡ ok created
      → Created user_id label random token_id now tokens
          (create_token hmac_sha256 keys user_id label random token_id now tokens).0
          created
  unfolding create_token create
  create_token-Created user_id label random token_id now tokens created h =
      elim (Bool-cases (is_empty (strip label))) [
        | inl blank ↦ cc (rw (blank, create_token) at h)
        | inr named ↦ elim (Bool-cases (user_id == "")) [
          | inl nobody ↦ cc (rw (named, nobody, create_token) at h)
          | inr owned ↦
              elim (Bool-cases (contains token_id tokens || hash_used (hash_of random) tokens)) [
                | inl taken ↦ cc (rw (named, owned, taken, create_token, create) at h)
                | inr free ↦
                    let row : ApiTokenRow = record {
                      token_hash = hash_of random;
                      user_id = user_id;
                      label = strip label;
                      created_at = now;
                      last_used_at = none;
                      revoked_at = none;
                    } in
                    let made : CreatedApiToken = record {
                      plaintext = api_token_prefix ++ random;
                      dto = dto_of token_id row;
                    } in
                    let e : made ≡ created =
                      cc (rw (named, owned, free, create_token, create) at h) in
                    rw (named, owned, free, create_token, create, ← e)
                      (record {
                        row = row;
                        hash_is = refl;
                        active = refl;
                        dto_is = refl;
                        plaintext_is = refl;
                        unused = ground (arith, free);
                        after_is = refl;
                      })
              ]
        ]
      ]

  others_same :
      (id j : String) (row : ApiTokenRow) (tokens : ApiTokens)
      → (id == j) ≡ false
      → get j (put id row tokens) ≡ get j tokens
  others_same id j row tokens different = get-put id j row tokens ∙ rw different refl

  -- The row under its hash, once it is in the table.
  get_active-created :
      (h : Bytes) (id : String) (row : ApiTokenRow) (tokens : ApiTokens)
      → IsUnique tokens
      → hash_used h tokens ≡ false
      → row.token_hash ≡ h
      → is_active row ≡ true
      → get_active_by_token_hash h (put id row tokens) ≡ some (dto_of id row)
  get_active-created h id row tokens unique unused hash_is active =
      elim (Option-cases (get_active_by_token_hash h (put id row tokens))) [
        | inl n ↦
            let c =
              get_active_complete id row (put id row tokens) (get-put_self id row tokens) active in
            cc (c, n, hash_is)
        | inr (dto, q) ↦
            let f =
              get_active-Found h (put id row tokens) dto (put-IsUnique id row tokens unique) q in
            let same =
              lone h id tokens (put id row tokens) dto unused
                (λ j different. others_same id j row tokens different) f in
            let stored = get-put_self id row tokens in
            let e : f.row ≡ row = cc (f.stored, stored, same) in
            q ∙ ap some (f.dto_is ∙ rw (e, same) refl)
      ]

  verify_bearer-accepts :
      (random : Text) (later : ℕ) (tokens : ApiTokens) (dto : ApiTokenDto)
      → IsUrlSafe random
      → get_active_by_token_hash (hash_of random) tokens ≡ some dto
      → (verify_bearer hmac_sha256 keys (some (api_token_prefix ++ random)) later tokens).1
        ≡ some dto
  unfolding verify_bearer
  verify_bearer-accepts random later tokens dto safe q =
      rw (has_token_shape-generated random safe, verify_bearer, q) refl

  verify_bearer-refuses :
      (random : Text) (later : ℕ) (tokens : ApiTokens)
      → IsUrlSafe random
      → get_active_by_token_hash (hash_of random) tokens ≡ none
      → (verify_bearer hmac_sha256 keys (some (api_token_prefix ++ random)) later tokens).1 ≡ none
  unfolding verify_bearer
  verify_bearer-refuses random later tokens safe n =
      rw (has_token_shape-generated random safe, verify_bearer, n) refl

  -- No row under the hash is active, once the one that came in is revoked.
  get_active-revoked :
      (h : Bytes) (id : String) (row : ApiTokenRow) (at : ℕ) (tokens : ApiTokens)
      → IsUnique tokens
      → hash_used h tokens ≡ false
      → get_active_by_token_hash h
          (put id (record row { revoked_at = some at }) (put id row tokens))
        ≡ none
  get_active-revoked h id row at tokens unique unused =
      let after = put id (record row { revoked_at = some at }) (put id row tokens) in
      let apart : (j : String) → (id == j) ≡ false → get j after ≡ get j tokens = λ j different.
        others_same id j (record row { revoked_at = some at }) (put id row tokens) different
        ∙ others_same id j row tokens different in
      let keys_unique =
        put-IsUnique id (record row { revoked_at = some at }) (put id row tokens)
          (put-IsUnique id row tokens unique) in
      elim (Option-cases (get_active_by_token_hash h after)) [
        | inl n ↦ n
        | inr (dto, q) ↦
            let f = get_active-Found h after dto keys_unique q in
            let same = lone h id tokens after dto unused apart f in
            let stored =
              get-put_self id (record row { revoked_at = some at }) (put id row tokens) in
            let e : f.row ≡ record row { revoked_at = some at } = cc (f.stored, stored, same) in
            cc (f.active, ap is_active e)
      ]

  revoke_row-once :
      (id : String) (row : ApiTokenRow) (at : ℕ) (tokens : ApiTokens)
      → is_active row ≡ true
      → revoke_token id at (put id row tokens)
        ≡ (put id (record row { revoked_at = some at }) (put id row tokens), true)
  unfolding revoke_token revoke_row
  revoke_row-once id row at tokens active =
      rw (revoke_token, revoke_row, get-put_self id row tokens, active) refl

  revoke_row-twice :
      (id : String) (row : ApiTokenRow) (at now : ℕ) (tokens : ApiTokens)
      → (revoke_token id now (put id (record row { revoked_at = some at }) tokens)).1 ≡ false
  unfolding revoke_token revoke_row
  revoke_row-twice id row at now tokens =
      rw (revoke_token, revoke_row, get-put_self id (record row { revoked_at = some at }) tokens)
        refl

  -- Where no id is listed twice and the random part is as `token_urlsafe` gives it: a token that was
  -- created is read out of its `Authorization` header and accepted with the metadata that its creation
  -- returned; revoking it by its id reports an update, its bearer is refused from then on, and revoking
  -- it again reports none.
  pub bearer_lifecycle :
      (user_id : String) (label random : Text) (token_id : String) (now later : ℕ)
      (tokens : ApiTokens) (created : CreatedApiToken)
      → IsUnique tokens
      → IsUrlSafe random
      → (create_token hmac_sha256 keys user_id label random token_id now tokens).1 ≡ ok created
      → let after = (create_token hmac_sha256 keys user_id label random token_id now tokens).0 in
        let (revoked, updated) = revoke_token created.dto.id later after in
        (extract_bearer_from_authorization (some (codes "Bearer " ++ created.plaintext))
          ≡ some created.plaintext)
        × ((verify_bearer hmac_sha256 keys (some created.plaintext) later after).1
            ≡ some created.dto)
        × (updated ≡ true)
        × ((verify_bearer hmac_sha256 keys (some created.plaintext) later revoked).1 ≡ none)
        × ((revoke_token created.dto.id later revoked).1 ≡ false)
  bearer_lifecycle user_id label random token_id now later tokens created unique safe success =
      let c = create_token-Created user_id label random token_id now tokens created success in
      let found =
        get_active-created (hash_of random) token_id c.row tokens unique c.unused c.hash_is
          c.active in
      let gone = get_active-revoked (hash_of random) token_id c.row later tokens unique c.unused in
      rw
        (c.plaintext_is, c.dto_is, c.after_is, revoke_row-once token_id c.row later tokens c.active)
        (
          extract-generated random safe,
          verify_bearer-accepts random later (put token_id c.row tokens) (dto_of token_id c.row)
              safe found,
          refl,
          verify_bearer-refuses random later
              (put token_id (record c.row { revoked_at = some later }) (put token_id c.row tokens))
              safe gone,
          revoke_row-twice token_id c.row later later (put token_id c.row tokens),
        )
