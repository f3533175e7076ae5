-- ===== src/Auth/ApiTokens/Shape.antt =====
-- app/auth/api_tokens.py: the shape of a token, and of the header that carries it.
use restream_plus.Auth.KeyMaterial.{is_empty}
use restream_plus.Auth.ApiTokens.{
  is_token_char, is_space, word, token_tail, token_body, has_token_shape, match_bearer,
  extract_bearer_from_authorization, api_token_prefix,
}
use restream_plus.Base.Texts.{text_eq, Text, codes}
use restream_plus.Base.{
  ℕ, [], ◌∷◌, string_eq, refl, ◌≡◌, all, ◌++◌, Bool-cases, arith, inl, inr, true, some, false,
}

-- What `secrets.token_urlsafe` gives.
abbrev pub IsUrlSafe : Text → Type 0
IsUrlSafe s = (is_empty s ≡ false) × (all is_token_char s ≡ true)

token_char_no_space : (c : ℕ) → is_token_char c ≡ true → is_space c ≡ false
token_char_no_space c h = ground arith

word-token : (s : Text) → all is_token_char s ≡ true → word s ≡ (s, [])
word-token [] h = refl
word-token (c ∷ s) h = elim (Bool-cases (is_token_char c)) [
  | inl safe ↦ rw (token_char_no_space c safe, word-token s (rw safe at h)) refl
  | inr other ↦ cc (rw other at h)
]

token_tail-safe : (s : Text) → all is_token_char s ≡ true → token_tail s ≡ true
token_tail-safe [] h = refl
token_tail-safe (c ∷ s) h = elim (Bool-cases (is_token_char c)) [
  | inl safe ↦ rw (safe, token_tail-safe s (rw safe at h)) refl
  | inr other ↦ cc (rw other at h)
]

token_body-safe : (s : Text) → IsUrlSafe s → token_body s ≡ true
token_body-safe [] h = cc (h.0)
token_body-safe (c ∷ s) h = elim (Bool-cases (is_token_char c)) [
  | inl safe ↦ rw (safe, token_tail-safe s (rw safe at h.1)) refl
  | inr other ↦ cc (rw other at h.1)
]

pub has_token_shape-generated :
    (random : Text) → IsUrlSafe random → has_token_shape (api_token_prefix ++ random) ≡ true
unfolding has_token_shape
has_token_shape-generated random h = token_body-safe random h

pub extract-generated :
    (random : Text)
    → IsUrlSafe random
    → extract_bearer_from_authorization (some (codes "Bearer " ++ (api_token_prefix ++ random)))
      ≡ some (api_token_prefix ++ random)
unfolding extract_bearer_from_authorization match_bearer
extract-generated random h =
    rw (match_bearer, word-token random h.1, has_token_shape-generated random h) refl
