-- ===== src/Repositories/ApiTokens.antt =====
-- app/repositories/api_tokens.py, over the table `api_tokens`: the primary key, with the other columns.
use restream_plus.Auth.KeyMaterial.{Bytes}
use restream_plus.Base.Dict.{Dict, get, put, IsUnique, contains}
use restream_plus.Base.Texts.{text_eq, Text, same_text, same_text_iff}
use restream_plus.Base.{
  ℕ, [], ◌∷◌, string_eq, refl, String, Bool, length, any, not, Option, ◌≡◌, none, Result, is_some,
  if◌then◌else◌, some, false, true, ◌&&◌, same_refl, Bool-cases, ◌≢◌, ◌||◌, inl, err, arith, ok,
  inr, ◌==◌, ap, ◌∙◌,
}

pub record ApiTokenRow : Type 0 where
  pub token_hash : Bytes
  pub user_id : String
  pub label : Text
  pub created_at : ℕ
  pub last_used_at : Option ℕ
  pub revoked_at : Option ℕ

-- The hash is left out.
pub record ApiTokenDto : Type 0 where
  pub id : String
  pub user_id : String
  pub label : Text
  pub created_at : ℕ
  pub last_used_at : Option ℕ
  pub revoked_at : Option ℕ

abbrev pub dto_of : String → ApiTokenRow → ApiTokenDto
dto_of id row = record {
  id = id;
  user_id = row.user_id;
  label = row.label;
  created_at = row.created_at;
  last_used_at = row.last_used_at;
  revoked_at = row.revoked_at;
}

abbrev pub ApiTokens : Type 0
ApiTokens = Dict String ApiTokenRow

pub data TokenRowError : Type 0 where
  integrity_error : TokenRowError

-- The column of the hashes is UNIQUE, over revoked rows too.
abbrev pub hash_used : Bytes → ApiTokens → Bool
hash_used token_hash = any (λ e. same_text e.1.token_hash token_hash)

unfoldable pub create :
    String → String → Bytes → Text → ℕ → ApiTokens → Result TokenRowError (ApiTokens × ApiTokenDto)
create token_id user_id token_hash label now tokens =
    let row : ApiTokenRow = record {
      token_hash = token_hash;
      user_id = user_id;
      label = label;
      created_at = now;
      last_used_at = none;
      revoked_at = none;
    } in
    if contains token_id tokens || hash_used token_hash tokens
    then err integrity_error
    else ok (put token_id row tokens, dto_of token_id row)

abbrev pub is_active : ApiTokenRow → Bool
is_active row = not (is_some row.revoked_at)

unfoldable pub get_active_by_token_hash : Bytes → ApiTokens → Option ApiTokenDto
get_active_by_token_hash token_hash [] = none
get_active_by_token_hash token_hash ((id, row) ∷ tokens) =
    let rest = get_active_by_token_hash token_hash tokens in
    if same_text row.token_hash token_hash && is_active row then some (dto_of id row) else rest

unfoldable pub touch_last_used : String → ℕ → ApiTokens → ApiTokens
touch_last_used token_id at tokens = elim (get token_id tokens) [
  | none ↦ tokens
  | some row ↦ put token_id (record row { last_used_at = some at }) tokens
]

-- With whether a row was updated.
unfoldable pub revoke_row : String → ℕ → ApiTokens → ApiTokens × Bool
revoke_row token_id at tokens = elim (get token_id tokens) [
  | none ↦ (tokens, false)
  | some row ↦
      if is_active row
      then (put token_id (record row { revoked_at = some at }) tokens, true)
      else (tokens, false)
]

unfoldable pub delete_all : ApiTokens → ApiTokens × ℕ
delete_all tokens = ([], length tokens)

-- An active token found under a hash is the row of its id, where no id is listed twice.
pub record Found (token_hash : Bytes) (tokens : ApiTokens) (dto : ApiTokenDto) : Type 0 where
  pub row : ApiTokenRow
  pub stored : get dto.id tokens ≡ some row
  pub dto_is : dto ≡ dto_of dto.id row
  pub hash_is : row.token_hash ≡ token_hash
  pub active : is_active row ≡ true

here-Found :
    (token_hash : Bytes) (id : String) (row : ApiTokenRow) (tokens : ApiTokens)
    → same_text row.token_hash token_hash ≡ true
    → is_active row ≡ true
    → Found token_hash ((id, row) ∷ tokens) (dto_of id row)
unfolding get
here-Found token_hash id row tokens same active = record {
  row = row;
  stored = rw (same_refl string_eq id) refl;
  dto_is = refl;
  hash_is = (same_text_iff row.token_hash token_hash).0 same;
  active = active;
}

pub get_active-Found :
    (token_hash : Bytes) (tokens : ApiTokens) (dto : ApiTokenDto)
    → IsUnique tokens
    → get_active_by_token_hash token_hash tokens ≡ some dto
    → Found token_hash tokens dto
unfolding get_active_by_token_hash get
get_active-Found token_hash [] dto u h = cc
get_active-Found token_hash ((id, row) ∷ tokens) dto u h =
    elim (Bool-cases (same_text row.token_hash token_hash && is_active row)) [
      | inl here ↦
          let found : ApiTokenDto = dto_of id row in
          let e : found ≡ dto = cc (rw (here, get_active_by_token_hash) at h) in
          rw (← e)
            (here-Found token_hash id row tokens (ground (arith, here)) (ground (arith, here)))
      | inr there ↦
          let f =
            get_active-Found token_hash tokens dto u.1
              (rw (there, get_active_by_token_hash) at h) in
          record {
            row = f.row;
            stored = ground (arith, f.stored, u.0, string_eq.same_iff id dto.id);
            dto_is = f.dto_is;
            hash_is = f.hash_is;
            active = f.active;
          }
    ]

-- An active row is found under its hash.
pub get_active_complete :
    (id : String) (row : ApiTokenRow) (tokens : ApiTokens)
    → get id tokens ≡ some row
    → is_active row ≡ true
    → is_some (get_active_by_token_hash row.token_hash tokens) ≡ true
unfolding get_active_by_token_hash get
get_active_complete id row [] h active = cc
get_active_complete id row ((j, other) ∷ tokens) h active =
    elim (Bool-cases (same_text other.token_hash row.token_hash && is_active other)) [
      | inl here ↦ rw here refl
      | inr there ↦ elim (Bool-cases (j == id)) [
        | inr other_id ↦
            rw there (get_active_complete id row tokens (rw (other_id, get) at h) active)
        | inl same_id ↦
            let e : other ≡ row = cc (rw (same_id, get) at h) in
            let same = (same_text_iff row.token_hash row.token_hash).1 refl in
            absurd (ground (arith, rw e at there, same, active))
      ]
    ]

pub unused-differs :
    (token_hash : Bytes) (id : String) (row : ApiTokenRow) (tokens : ApiTokens)
    → hash_used token_hash tokens ≡ false
    → get id tokens ≡ some row
    → row.token_hash ≢ token_hash
unfolding get
unused-differs token_hash id row [] unused h same = cc
unused-differs token_hash id row ((j, other) ∷ tokens) unused h same =
    elim (Bool-cases (same_text other.token_hash token_hash)) [
      | inl used ↦ cc (rw used at unused)
      | inr free ↦ elim (Bool-cases (j == id)) [
        | inr other_id ↦
            unused-differs token_hash id row tokens (rw free at unused) (rw (other_id, get) at h)
              same
        | inl same_id ↦
            let e : other ≡ row = cc (rw (same_id, get) at h) in
            cc (
              free,
              (same_text_iff other.token_hash token_hash).1 (ap (λ x. x.token_hash) e ∙ same),
            )
      ]
    ]
