-- ===== src/Repositories/HttpSessions/Active.antt =====
-- app/repositories/sessions.py: what `list_active_for_user` lists.
use restream_plus.Base.Texts.{text_eq, same_text, same_text_iff}
use restream_plus.Base.{◌∷◌, String, ◌&&◌, string_eq, ltb, arith, same_refl}
use restream_plus.Base.Texts.{same_text}
use restream_plus.Base.Dict.{get, IsUnique}
use restream_plus.Base.{List, All, none, Bool-cases, ◌≡◌, ◌==◌, some, leb, inl, ◌<◌, [], inr}
use Prim.Native.Nat.{ℕ}
use restream_plus.Auth.KeyMaterial.{Bytes}
use restream_plus.Repositories.HttpSessions.{
  HttpSessionDto, list_active_for_user, newest_first, HttpSessions, HttpSessionRow,
}

module _ (P : HttpSessionDto → Type 0) where
  newest_first-All :
      (session : HttpSessionDto) (rows : List HttpSessionDto)
      → P session
      → All P rows
      → All P (newest_first session rows)
  unfolding newest_first
  newest_first-All session [] h k = (h, tt)
  newest_first-All session (other ∷ rest) h k =
      elim (Bool-cases (leb other.columns.last_seen_at session.columns.last_seen_at)) [
        | inl newer ↦ rw newer (h, k)
        | inr older ↦ rw older (k.0, newest_first-All session rest h k.1)
      ]

-- A row of the table that is the user's and has not expired.
abbrev pub IsActive : String → ℕ → HttpSessions → HttpSessionDto → Type 0
IsActive user_id now sessions session =
    (get session.token_hash sessions ≡ some session.columns)
    × (session.columns.user_id ≡ user_id)
    × (now < session.columns.expires_at)

All-imp :
    {P Q : HttpSessionDto → Type 0}
    → ((session : HttpSessionDto) → P session → Q session)
    → (sessions : List HttpSessionDto) → All P sessions
    → All Q sessions
All-imp f [] h = tt
All-imp f (session ∷ sessions) h = (f session h.0, All-imp f sessions h.1)

-- A row stays found when another one is put in front of it.
IsActive-cons :
    (user_id : String) (now : ℕ) (k : Bytes) (row : HttpSessionRow) (sessions : HttpSessions)
    → get k sessions ≡ none
    → (session : HttpSessionDto) → IsActive user_id now sessions session
    → IsActive user_id now ((k, row) ∷ sessions) session
unfolding get
IsActive-cons user_id now k row sessions absent session (found, own, active) =
    elim (Bool-cases (same_text k session.token_hash)) [
      | inl hit ↦ let e = (same_text_iff k session.token_hash).0 hit in cc (rw e at absent, found)
      | inr miss ↦ (rw miss found, own, active)
    ]

pub list_active_for_user-IsActive :
    (user_id : String) (now : ℕ) (sessions : HttpSessions)
    → IsUnique sessions
    → All (IsActive user_id now sessions) (list_active_for_user user_id now sessions)
unfolding list_active_for_user get
list_active_for_user-IsActive user_id now [] u = tt
list_active_for_user-IsActive user_id now ((k, row) ∷ sessions) u =
    let rest =
      All-imp (IsActive-cons user_id now k row sessions u.0)
        (list_active_for_user user_id now sessions)
        (list_active_for_user-IsActive user_id now sessions u.1) in
    elim (Bool-cases ((row.user_id == user_id) && ltb now row.expires_at)) [
      | inl taken ↦ rw taken (
          newest_first-All (IsActive user_id now ((k, row) ∷ sessions))
            (record { token_hash = k; columns = row }) (list_active_for_user user_id now sessions)
            (ground (arith, taken, same_refl text_eq k, string_eq.same_iff row.user_id user_id))
            rest)
      | inr left ↦ rw left rest
    ]
