-- ===== src/Auth/ApiTokensTests.antt =====
-- app/auth/api_tokens.py: headers, and the life of one token.
use restream_plus.Base.Dict.{get, IsUnique}
use restream_plus.Base.Texts.{codes, Text}
use restream_plus.Auth.KeyMaterial.{Bytes, DerivedKeys}
use restream_plus.Auth.ApiTokens.{
  create_token, verify_bearer, revoke_token, extract_bearer_from_authorization, match_bearer,
  has_token_shape, CreatedApiToken, empty_label,
}
use restream_plus.Auth.ApiTokens.Bearer.{bearer_lifecycle}
use restream_plus.Repositories.ApiTokens.{create, dto_of, ApiTokenRow, ApiTokens}
use restream_plus.Base.{[], ◌∷◌, string_eq, refl, some, ◌≡◌, none, ◌++◌, ok, err, true, false}

any_case :
    extract_bearer_from_authorization (some (codes "bEARER   rpat_a-1_Z  "))
    ≡ some (codes "rpat_a-1_Z")
unfolding extract_bearer_from_authorization match_bearer has_token_shape
any_case = refl

other_scheme : extract_bearer_from_authorization (some (codes "Basic rpat_abc")) ≡ none
unfolding extract_bearer_from_authorization match_bearer has_token_shape
other_scheme = refl

two_words : extract_bearer_from_authorization (some (codes "Bearer rpat_abc def")) ≡ none
unfolding extract_bearer_from_authorization match_bearer has_token_shape
two_words = refl

other_prefix : extract_bearer_from_authorization (some (codes "Bearer ghp_abc")) ≡ none
unfolding extract_bearer_from_authorization match_bearer has_token_shape
other_prefix = refl

abbrev test_mac : Bytes → Text → Bytes
test_mac key text = key ++ text

abbrev test_keys : DerivedKeys
test_keys = record { stream_key_kek = []; api_token_mac_key = 5 ∷ []; session_token_mac_key = [] }

abbrev old_token : ApiTokenRow
old_token = record {
  token_hash = 5 ∷ 1 ∷ [];
  user_id = "u1";
  label = codes "old";
  created_at = 1;
  last_used_at = none;
  revoked_at = some 2;
}

abbrev tokens : ApiTokens
tokens = ("t0", old_token) ∷ []

abbrev new_token : ApiTokenRow
new_token = record {
  token_hash = 5 ∷ codes "rpat_abc";
  user_id = "u1";
  label = codes "home cli";
  created_at = 10;
  last_used_at = none;
  revoked_at = none;
}

abbrev created : CreatedApiToken
created = record { plaintext = codes "rpat_abc"; dto = dto_of "t1" new_token }

creates :
    (create_token test_mac test_keys "u1" (codes " home cli ") (codes "abc") "t1" 10 tokens).1
    ≡ ok created
unfolding create_token create get
creates = refl

blank_label :
    create_token test_mac test_keys "u1" (codes "  ") (codes "abc") "t1" 10 tokens
    ≡ (tokens, err empty_label)
unfolding create_token
blank_label = refl

tokens-IsUnique : IsUnique tokens
unfolding get
tokens-IsUnique = (refl, tt)

bearer_lifecycle_example :
    let after =
      (create_token test_mac test_keys "u1" (codes " home cli ") (codes "abc") "t1" 10 tokens).0 in
    let (revoked, updated) = revoke_token created.dto.id 20 after in
    (extract_bearer_from_authorization (some (codes "Bearer " ++ created.plaintext))
      ≡ some created.plaintext)
    × ((verify_bearer test_mac test_keys (some created.plaintext) 20 after).1 ≡ some created.dto)
    × (updated ≡ true)
    × ((verify_bearer test_mac test_keys (some created.plaintext) 20 revoked).1 ≡ none)
    × ((revoke_token created.dto.id 20 revoked).1 ≡ false)
bearer_lifecycle_example =
    bearer_lifecycle test_mac test_keys "u1" (codes " home cli ") (codes "abc") "t1" 10 20 tokens
      created tokens-IsUnique (refl, refl) creates
