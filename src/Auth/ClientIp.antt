-- ===== src/Auth/ClientIp.antt =====
-- app/auth/rate_limit.py: `extract_client_ip`. The module `ipaddress` is a parameter: `ip_address` parses an address,
-- `within` tells whether a network contains it.
pub mod Hops
use restream_plus.Auth.ApiTokens.{strip}
use restream_plus.Base.Texts.{Text, codes, starts_with, is_empty}
use restream_plus.Base.{
  ℕ, List, [], ◌∷◌, Bool, true, false, Option, none, some, if◌then◌else◌, filter, any, eqb, not,
  ◌&&◌, map, ◌+◌, drop,
}

abbrev pub unknown_client_ip : Text
unknown_client_ip = codes "unknown"

abbrev pub comma : ℕ
comma = 44

abbrev pub colon : ℕ
colon = 58

abbrev pub open_bracket : ℕ
open_bracket = 91

abbrev pub close_bracket : ℕ
close_bracket = 93

-- `str.split` on one character.
unfoldable pub split_on : ℕ → Text → List Text
split_on sep [] = [] ∷ []
split_on sep (c ∷ s) =
    let rest = split_on sep s in
    if eqb c sep
    then [] ∷ rest
    else elim rest [ [] ↦ (c ∷ []) ∷ [] | word ∷ words ↦ (c ∷ word) ∷ words ]

-- `[hop.strip() for hop in s.split(",") if hop.strip()]`
unfoldable pub hops_of : Text → List Text
hops_of s = filter (λ hop. not (is_empty hop)) (map strip (split_on comma s))

-- The text in front of the first `c`, which is all of it when there is none.
unfoldable pub up_to : ℕ → Text → Text
up_to c [] = []
up_to c (x ∷ s) = let rest = up_to c s in if eqb x c then [] else x ∷ rest

unfoldable pub count : ℕ → Text → ℕ
count c [] = 0
count c (x ∷ s) = let n = count c s in if eqb x c then n + 1 else n

module _ {ℓ κ} {Address : Type ℓ} {Network : Type κ} (ip_address : Text → Option Address)
    (within : Address → Network → Bool) where
  unfoldable pub is_valid_ip : Text → Bool
  is_valid_ip candidate = elim (ip_address candidate) [ none ↦ false | some addr ↦ true ]

  unfoldable pub ip_in_networks : Text → List Network → Bool
  ip_in_networks candidate networks = elim (ip_address candidate) [
    | none ↦ false
    | some addr ↦ any (within addr) networks
  ]

  unfoldable pub strip_port : Text → Text
  strip_port hop =
      if is_valid_ip hop
      then hop
      else if starts_with (codes "[") hop && any (λ c. eqb c close_bracket) hop
      then drop 1 (up_to close_bracket hop)
      else if eqb (count colon hop) 1 && is_valid_ip (up_to colon hop)
      then up_to colon hop
      else hop

  -- The body of the loop: the hop, when it is the one to return.
  unfoldable pub client_at : List Network → Text → Option Text
  client_at trusted hop =
      let cleaned = strip_port hop in
      if not (is_valid_ip cleaned)
      then none
      else if ip_in_networks cleaned trusted
      then none
      else some cleaned

  -- The loop over `reversed(hops)`: the hops on the right come first.
  unfoldable pub walk : List Network → List Text → Option Text
  walk trusted [] = none
  walk trusted (hop ∷ hops) = elim (walk trusted hops) [
    | some client ↦ some client
    | none ↦ client_at trusted hop
  ]

  -- The header of a peer that is a trusted proxy.
  unfoldable pub from_header : Text → List Network → Text → Text
  from_header peer trusted forwarded = elim (walk trusted (hops_of forwarded)) [
    | some client ↦ client
    | none ↦ peer
  ]

  -- A missing list of proxies is an empty one, and a missing text is an empty one.
  unfoldable pub extract_client_ip : Text → Text → List Network → Text
  extract_client_ip peer_ip forwarded_for trusted_proxies =
      if is_empty peer_ip
      then unknown_client_ip
      else if not (ip_in_networks peer_ip trusted_proxies)
      then peer_ip
      else if is_empty forwarded_for
      then peer_ip
      else from_header peer_ip trusted_proxies forwarded_for
