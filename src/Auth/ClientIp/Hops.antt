-- ===== src/Auth/ClientIp/Hops.antt =====
-- app/auth/rate_limit.py: which hop is the client, and what a client cannot change.
use restream_plus.Auth.ApiTokens.{strip}
use restream_plus.Auth.ClientIp.{
  comma, split_on, hops_of, is_valid_ip, ip_in_networks, strip_port, client_at, walk, from_header,
  extract_client_ip, unknown_client_ip,
}
use restream_plus.Base.Texts.{Text, is_empty}
use restream_plus.Base.{
  ℕ, List, [], ◌∷◌, Bool, true, false, Option, none, some, ◌≡◌, refl, ◌++◌, filter-append, map, not,
  Bool-cases, All, Option-cases, inl, arith, inr, ◌∙◌, ap, eqb,
}

-- `split` returns at least one word.
split_on_cons :
    (sep : ℕ) (s : Text) → (word : Text) × (words : List Text) × (split_on sep s ≡ word ∷ words)
unfolding split_on
split_on_cons sep [] = ([], [], refl)
split_on_cons sep (c ∷ s) =
    let (word, words, e) = split_on_cons sep s in
    elim (Bool-cases (eqb c sep)) [
      | inl same ↦ ([], split_on sep s, rw (split_on, same) refl)
      | inr other ↦ (c ∷ word, words, rw (split_on, other, e) refl)
    ]

-- `split` on a text with a separator in the middle.
split_on-append :
    (sep : ℕ) (s t : Text) → split_on sep (s ++ sep ∷ t) ≡ split_on sep s ++ split_on sep t
unfolding split_on
split_on-append sep [] t = let same : eqb sep sep ≡ true = ground arith in rw same refl
split_on-append sep (c ∷ s) t =
    let (word, words, e) = split_on_cons sep s in
    elim (Bool-cases (eqb c sep)) [
      | inl same ↦ rw (same, split_on-append sep s t) refl
      | inr other ↦ rw (other, split_on-append sep s t, e) refl
    ]

map-append : (f : Text → Text) (xs ys : List Text) → map f (xs ++ ys) ≡ map f xs ++ map f ys
map-append f [] ys = refl
map-append f (x ∷ xs) ys = rw (map-append f xs ys) refl

hops_of-append : (s t : Text) → hops_of (s ++ comma ∷ t) ≡ hops_of s ++ hops_of t
unfolding hops_of
hops_of-append s t =
    rw (hops_of, split_on-append comma s t, map-append strip (split_on comma s) (split_on comma t))
      (filter-append (λ hop. not (is_empty hop)) (map strip (split_on comma s))
        (map strip (split_on comma t)))

module _ {ℓ κ} {Address : Type ℓ} {Network : Type κ} (ip_address : Text → Option Address)
    (within : Address → Network → Bool) (trusted : List Network) where
  -- A hop that the walk passes over: no address, or a trusted proxy.
  abbrev pub IsPassed : Text → Type 0
  IsPassed hop =
      is_valid_ip ip_address within (strip_port ip_address within hop) ≡ true
      → ip_in_networks ip_address within (strip_port ip_address within hop) trusted ≡ true

  -- The hop that the walk stops at: every hop on its right is passed over.
  pub record IsRightmost (hops : List Text) (client : Text) : Type 0 where
    pub before : List Text
    pub hop : Text
    pub after : List Text
    pub hops_are : hops ≡ before ++ hop ∷ after
    pub client_is : client ≡ strip_port ip_address within hop
    pub valid : is_valid_ip ip_address within client ≡ true
    pub untrusted : ip_in_networks ip_address within client trusted ≡ false
    pub passed : All IsPassed after

  -- The rule for the client's address.
  pub data IsClient (peer forwarded : Text) : Text → Type 0 where
    no_peer : is_empty peer ≡ true → IsClient peer forwarded unknown_client_ip
    untrusted_peer :
        is_empty peer ≡ false
        → ip_in_networks ip_address within peer trusted ≡ false
        → IsClient peer forwarded peer
    only_proxies :
        is_empty peer ≡ false
        → ip_in_networks ip_address within peer trusted ≡ true
        → All IsPassed (hops_of forwarded)
        → IsClient peer forwarded peer
    behind_proxies :
        {client : Text}
        → is_empty peer ≡ false
        → ip_in_networks ip_address within peer trusted ≡ true
        → IsRightmost (hops_of forwarded) client
        → IsClient peer forwarded client

  client_at-none : (hop : Text) → client_at ip_address within trusted hop ≡ none → IsPassed hop
  unfolding client_at
  client_at-none hop h valid =
      elim (Bool-cases
        (ip_in_networks ip_address within (strip_port ip_address within hop) trusted)) [
          | inl inside ↦ inside
          | inr outside ↦ cc (rw (client_at, valid, outside) at h)
        ]

  client_at-some :
      (hop client : Text)
      → client_at ip_address within trusted hop ≡ some client
      → (client ≡ strip_port ip_address within hop)
        × (is_valid_ip ip_address within client ≡ true)
        × (ip_in_networks ip_address within client trusted ≡ false)
  unfolding client_at
  client_at-some hop client h =
      let cleaned = strip_port ip_address within hop in
      elim (Bool-cases (is_valid_ip ip_address within cleaned)) [
        | inr bad ↦ cc (rw (client_at, bad) at h)
        | inl good ↦ elim (Bool-cases (ip_in_networks ip_address within cleaned trusted)) [
          | inl inside ↦ cc (rw (client_at, good, inside) at h)
          | inr outside ↦
              let e : cleaned ≡ client = cc (rw (client_at, good, outside) at h) in
              rw (← e) (refl, good, outside)
        ]
      ]

  walk-none : (hops : List Text) → walk ip_address within trusted hops ≡ none → All IsPassed hops
  unfolding walk
  walk-none [] h = tt
  walk-none (hop ∷ hops) h = elim (Option-cases (walk ip_address within trusted hops)) [
    | inl q ↦ (client_at-none hop (rw (walk, q) at h), walk-none hops q)
    | inr (c, q) ↦ cc (rw (walk, q) at h)
  ]

  walk-IsRightmost :
      (hops : List Text) (client : Text)
      → walk ip_address within trusted hops ≡ some client
      → IsRightmost hops client
  unfolding walk
  walk-IsRightmost [] client h = cc h
  walk-IsRightmost (hop ∷ hops) client h =
      elim (Option-cases (walk ip_address within trusted hops)) [
        | inl q ↦
            let (client_is, valid, untrusted) = client_at-some hop client (rw (walk, q) at h) in
            record {
              before = [];
              hop = hop;
              after = hops;
              hops_are = refl;
              client_is = client_is;
              valid = valid;
              untrusted = untrusted;
              passed = walk-none hops q;
            }
        | inr (c, q) ↦
            let found = walk-IsRightmost hops client (q ∙ (rw (walk, q) at h)) in
            record {
              before = hop ∷ found.before;
              hop = found.hop;
              after = found.after;
              hops_are = ap (λ x. hop ∷ x) found.hops_are;
              client_is = found.client_is;
              valid = found.valid;
              untrusted = found.untrusted;
              passed = found.passed;
            }
      ]

  walk-append :
      (xs ys : List Text) (client : Text)
      → walk ip_address within trusted ys ≡ some client
      → walk ip_address within trusted (xs ++ ys) ≡ some client
  unfolding walk
  walk-append [] ys client h = h
  walk-append (x ∷ xs) ys client h = rw (walk, walk-append xs ys client h) refl

  -- A trusted proxy's header decides, an empty one as well.
  extract_inside :
      (peer forwarded : Text)
      → is_empty peer ≡ false
      → ip_in_networks ip_address within peer trusted ≡ true
      → extract_client_ip ip_address within peer forwarded trusted
        ≡ from_header ip_address within peer trusted forwarded
  unfolding extract_client_ip from_header hops_of split_on walk
  extract_inside peer [] given inside = rw (given, inside) refl
  extract_inside peer (c ∷ forwarded) given inside = rw (given, inside) refl

  -- The address is "unknown" without a peer, the peer itself when it is no trusted proxy, and otherwise the
  -- rightmost hop of the header that is an address outside the trusted networks, or the peer when there is none.
  pub extract_client_ip-IsClient :
      (peer forwarded : Text)
      → IsClient peer forwarded (extract_client_ip ip_address within peer forwarded trusted)
  unfolding extract_client_ip from_header
  extract_client_ip-IsClient peer forwarded = elim (Bool-cases (is_empty peer)) [
    | inl missing ↦ rw (extract_client_ip, missing) (no_peer missing)
    | inr given ↦ elim (Bool-cases (ip_in_networks ip_address within peer trusted)) [
      | inr outside ↦ rw (extract_client_ip, given, outside) (untrusted_peer given outside)
      | inl inside ↦ elim (Option-cases (walk ip_address within trusted (hops_of forwarded))) [
        | inl q ↦
            rw (extract_inside peer forwarded given inside, from_header, q)
              (only_proxies given inside (walk-none (hops_of forwarded) q))
        | inr (client, q) ↦
            rw (extract_inside peer forwarded given inside, from_header, q)
              (behind_proxies given inside (walk-IsRightmost (hops_of forwarded) client q))
      ]
    ]
  ]

  -- Text that is put in front of the header of a chain of proxies does not change the address, where the
  -- header alone gives one other than the peer's.
  pub extract_client_ip_unspoofed :
      (peer forwarded spoofed : Text)
      → ¬ (extract_client_ip ip_address within peer forwarded trusted ≡ peer)
      → extract_client_ip ip_address within peer (spoofed ++ comma ∷ forwarded) trusted
        ≡ extract_client_ip ip_address within peer forwarded trusted
  unfolding extract_client_ip from_header
  extract_client_ip_unspoofed peer forwarded spoofed differs = elim (Bool-cases (is_empty peer)) [
    | inl missing ↦ rw (extract_client_ip, missing) refl
    | inr given ↦ elim (Bool-cases (ip_in_networks ip_address within peer trusted)) [
      | inr outside ↦ rw (extract_client_ip, given, outside) refl
      | inl inside ↦ elim (Option-cases (walk ip_address within trusted (hops_of forwarded))) [
        | inl q ↦
            elim (differs
              (rw (extract_inside peer forwarded given inside, from_header, q) refl)) [ ]
        | inr (client, q) ↦
            let w = walk-append (hops_of spoofed) (hops_of forwarded) client q in
            rw
              (
                extract_inside peer forwarded given inside,
                extract_inside peer (spoofed ++ comma ∷ forwarded) given inside,
                from_header,
                hops_of-append spoofed forwarded,
                q,
                w,
              )
              refl
      ]
    ]
  ]
