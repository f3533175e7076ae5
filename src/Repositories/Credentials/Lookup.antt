-- ===== src/Repositories/Credentials/Lookup.antt =====
-- app/repositories/credentials.py: what is found under a target.
use restream_plus.Repositories.Credentials.{
  Credentials, CredentialRow, get_for_target, without_target,
}
use restream_plus.Base.Dict.{get, put}
use restream_plus.Base.{
  string_eq, String, ◌≡◌, none, some, refl, [], ◌∷◌, Bool-cases, same_refl, ◌==◌, inl, inr,
}

pub without_target-clears :
    (target_id : String) (d : Credentials)
    → get_for_target target_id (without_target target_id d) ≡ none
unfolding get_for_target without_target
without_target-clears target_id [] = refl
without_target-clears target_id ((id, row) ∷ d) = elim (Bool-cases (row.target_id == target_id)) [
  | inl same ↦ rw same (without_target-clears target_id d)
  | inr other ↦ rw (other) (rw (get_for_target, other) (without_target-clears target_id d))
]

pub get-without_target :
    (id target_id : String) (d : Credentials)
    → get id d ≡ none
    → get id (without_target target_id d) ≡ none
unfolding get without_target
get-without_target id target_id [] h = refl
get-without_target id target_id ((j, row) ∷ d) h = elim (Bool-cases (j == id)) [
  | inl found ↦ cc (rw (get, found) at h)
  | inr not_here ↦
      let rest = get-without_target id target_id d (rw (get, not_here) at h) in
      elim (Bool-cases (row.target_id == target_id)) [
        | inl same ↦ rw same rest
        | inr other ↦ rw (other, not_here) rest
      ]
]

pub get_for_target-put :
    (id : String) (row : CredentialRow) (d : Credentials)
    → get id d ≡ none
    → get_for_target row.target_id d ≡ none
    → get_for_target row.target_id (put id row d) ≡ some (id, row)
unfolding get_for_target get put
get_for_target-put id row [] fresh absent = rw (same_refl string_eq row.target_id) refl
get_for_target-put id row ((j, other) ∷ d) fresh absent = elim (Bool-cases (j == id)) [
  | inl found ↦ cc (rw (get, found) at fresh)
  | inr not_here ↦ elim (Bool-cases (other.target_id == row.target_id)) [
    | inl same ↦ cc (rw (get_for_target, same) at absent)
    | inr differs ↦
        rw (not_here, differs)
          (get_for_target-put id row d (rw (get, not_here) at fresh)
            (rw (get_for_target, differs) at absent))
  ]
]
