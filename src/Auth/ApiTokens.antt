-- ===== src/Auth/ApiTokens.antt =====
-- app/auth/api_tokens.py: `ApiTokenService`, and the bearer of a header. A text is a list of code points;
-- the MAC, the fresh random part, the fresh id and the time are arguments.
use restream_plus.Base.Texts.{Text, codes, starts_with}
pub mod Shape
pub mod Bearer
use restream_plus.Auth.KeyMaterial.{Bytes, DerivedKeys, is_empty}
use restream_plus.Repositories.ApiTokens.{
  create, get_active_by_token_hash, touch_last_used, ApiTokens, ApiTokenDto, revoke_row,
}
use restream_plus.Base.{
  ℕ, [], ◌∷◌, string_eq, Bool, Option, leb, true, false, eqb, if◌then◌else◌, drop, some, String,
  ◌&&◌, ◌||◌, Result, none, ◌+◌, not, ◌++◌, err, ◌==◌, ok,
}

abbrev pub api_token_prefix : Text
api_token_prefix = codes "rpat_"

abbrev pub space : ℕ
space = 32

abbrev pub line_feed : ℕ
line_feed = 10

-- The white space of `str`: `\s`, and what `strip` takes off.
abbrev pub is_space : ℕ → Bool
is_space c =
    (leb 9 c && leb c 13)
    || ((leb 28 c && leb c 32)
        || (eqb c 133
            || (eqb c 160
                || (eqb c 5760
                    || ((leb 8192 c && leb c 8202)
                        || (eqb c 8232
                            || (eqb c 8233 || (eqb c 8239 || (eqb c 8287 || eqb c 12288)))))))))

-- `[A-Za-z0-9_-]`
abbrev pub is_token_char : ℕ → Bool
is_token_char c =
    (leb 65 c && leb c 90)
    || ((leb 97 c && leb c 122) || ((leb 48 c && leb c 57) || (eqb c 95 || eqb c 45)))

-- `$`: the end, or a line feed in front of it.
abbrev pub at_end : Text → Bool
at_end [] = true
at_end (c ∷ s) = eqb c line_feed && is_empty s

-- `[A-Za-z0-9_-]*$`
abbrev pub token_tail : Text → Bool
token_tail [] = true
token_tail (c ∷ s) = (is_token_char c && token_tail s) || at_end (c ∷ s)

-- `[A-Za-z0-9_-]+$`
abbrev pub token_body : Text → Bool
token_body [] = false
token_body (c ∷ s) = is_token_char c && token_tail s

-- `_TOKEN_PREFIX_RE.match`
unfoldable pub has_token_shape : Text → Bool
has_token_shape s = starts_with api_token_prefix s && token_body (drop 5 s)

-- A letter of the scheme, in either case.
abbrev pub same_letter : ℕ → ℕ → Bool
same_letter lower c = eqb c lower || eqb (c + 32) lower

abbrev pub starts_with_scheme : Text → Text → Bool
starts_with_scheme [] s = true
starts_with_scheme (p ∷ ps) [] = false
starts_with_scheme (p ∷ ps) (c ∷ s) = same_letter p c && starts_with_scheme ps s

-- ` *`
abbrev pub skip_spaces : Text → Text
skip_spaces [] = []
skip_spaces (c ∷ s) = let rest = skip_spaces s in if eqb c space then rest else c ∷ s

-- `(\S+)` and what follows it.
abbrev pub word : Text → Text × Text
word [] = ([], [])
word (c ∷ s) = let (w, rest) = word s in if is_space c then ([], c ∷ s) else (c ∷ w, rest)

abbrev pub has_space : Text → Bool
has_space [] = false
has_space (c ∷ s) = eqb c space

-- `BEARER_AUTHORIZATION_RE.match`, with its group. No run can be cut shorter to let the rest match.
unfoldable pub match_bearer : Text → Option Text
match_bearer s =
    let (token, rest) = word (skip_spaces (drop 6 s)) in
    if (starts_with_scheme (codes "bearer") s && has_space (drop 6 s))
      && (not (is_empty token) && at_end (skip_spaces rest))
    then some token
    else none

unfoldable pub extract_bearer_from_authorization : Option Text → Option Text
extract_bearer_from_authorization none = none
extract_bearer_from_authorization (some header_value) = elim (match_bearer header_value) [
  | none ↦ none
  | some token ↦ if has_token_shape token then some token else none
]

abbrev pub strip_left : Text → Text
strip_left [] = []
strip_left (c ∷ s) = let rest = strip_left s in if is_space c then rest else c ∷ s

abbrev pub strip_right : Text → Text
strip_right [] = []
strip_right (c ∷ s) =
    let rest = strip_right s in if is_space c && is_empty rest then [] else c ∷ rest

-- `str.strip`
abbrev pub strip : Text → Text
strip s = strip_right (strip_left s)

pub data TokenError : Type 0 where
  empty_label empty_user_id token_exists : TokenError

pub record CreatedApiToken : Type 0 where
  pub plaintext : Text
  pub dto : ApiTokenDto

module _ (hmac_sha256 : Bytes → Text → Bytes) (keys : DerivedKeys) where
  -- The plaintexts that come here are not empty.
  abbrev pub compute_api_token_hash : Text → Bytes
  compute_api_token_hash plaintext = hmac_sha256 keys.api_token_mac_key plaintext

  unfoldable pub create_token :
      String → Text → Text → String → ℕ → ApiTokens → ApiTokens × Result TokenError CreatedApiToken
  create_token user_id label random token_id now tokens =
      let plaintext = api_token_prefix ++ random in
      if is_empty (strip label)
      then (tokens, err empty_label)
      else if user_id == ""
      then (tokens, err empty_user_id)
      else elim (create token_id user_id (compute_api_token_hash plaintext) (strip label) now
          tokens) [
            | err e ↦ (tokens, err token_exists)
            | ok (after, dto) ↦ (after, ok (record { plaintext = plaintext; dto = dto }))
          ]

  unfoldable pub verify_bearer : Option Text → ℕ → ApiTokens → ApiTokens × Option ApiTokenDto
  verify_bearer none now tokens = (tokens, none)
  verify_bearer (some plaintext) now tokens =
      if has_token_shape plaintext
      then elim (get_active_by_token_hash (compute_api_token_hash plaintext) tokens) [
        | none ↦ (tokens, none)
        | some dto ↦ (touch_last_used dto.id now tokens, some dto)
      ]
      else (tokens, none)

unfoldable pub revoke_token : String → ℕ → ApiTokens → ApiTokens × Bool
revoke_token token_id now tokens = revoke_row token_id now tokens
