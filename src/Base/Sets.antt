-- ===== src/Base/Sets.antt =====
-- Python's `set`, as a list that is only read through `member`.
use restream_plus.Base.{List, [], ◌∷◌, Bool, true, false, ◌≡◌, if◌then◌else◌, arith, Eq, ◌==◌}

module _ {ℓ} {K : Type ℓ} ⦃e : Eq K⦄ where
  -- `k in s`
  unfoldable pub member : K → List K → Bool
  member k [] = false
  member k (j ∷ s) = if j == k then true else member k s

  -- `s.add(k)`
  unfoldable pub insert : K → List K → List K
  insert k s = if member k s then s else k ∷ s

  -- `s.discard(k)`
  unfoldable pub discard : K → List K → List K
  discard k [] = []
  discard k (j ∷ s) = let rest = discard k s in if j == k then rest else j ∷ rest

  pub member-insert :
      (j k : K) (s : List K) → member j (insert k s) ≡ (if k == j then true else member j s)
  unfolding insert member
  member-insert j k s = ground (arith, e.same_iff k j)

  pub member-discard :
      (j k : K) (s : List K) → member j (discard k s) ≡ (if k == j then false else member j s)
  unfolding discard member
  member-discard j k [] = ground arith
  member-discard j k (i ∷ s) =
      ground (arith, e.same_iff k j, e.same_iff i k, e.same_iff i j, member-discard j k s)
