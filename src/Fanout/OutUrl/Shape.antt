-- ===== src/Fanout/OutUrl/Shape.antt =====
-- app/fanout/ffmpeg_urls.py: the shape of a composed URL, and its place in the arguments of ffmpeg.
use restream_plus.Fanout.Worker.{WorkerId}
use restream_plus.Base.Texts.{Text, codes, is_empty, starts_with}
use mathlib.Core.List.{append-nil}
use restream_plus.Domain.TargetTypes.{TargetType, youtube, custom, type_eq, twitch, kick, vk_live}
use restream_plus.Domain.WorkerState.{WorkerRole, backup, role_eq, primary}
use restream_plus.Fanout.OutUrl.{
  slash, rstrip_slash, replace_first, has_scheme, youtube_backup_host_prefix, ffmpeg_base_args,
  UrlError, empty_url, bad_scheme, backup_not_youtube, youtube_backup_query, compose_accepted,
  compose_out_url, build_argv, youtube_backup_host_replace,
}
use restream_plus.Base.{
  ℕ, [], ◌∷◌, ◌++◌, Bool, true, false, ◌&&◌, not, eqb, ◌≡◌, refl, All, ◌⊎◌, inl, inr, arith,
  Bool-cases, ap, ◌==◌, if◌then◌else◌, sym, ◌∙◌, err, ok, List,
}

abbrev pub ends_slash : Text → Bool
ends_slash [] = false
ends_slash (c ∷ []) = eqb c slash
ends_slash (c ∷ d ∷ s) = ends_slash (d ∷ s)

keep_slash :
    (c : ℕ) (s : Text)
    → ends_slash s ≡ false
    → ends_slash (if eqb c slash && is_empty s then [] else c ∷ s) ≡ false
keep_slash c [] h = ground arith
keep_slash c (d ∷ s) h = ground arith

rstrip_slash-ends : (s : Text) → ends_slash (rstrip_slash s) ≡ false
unfolding rstrip_slash
rstrip_slash-ends [] = refl
rstrip_slash-ends (c ∷ s) = keep_slash c (rstrip_slash s) (rstrip_slash-ends s)

abbrev pub IsSlash : ℕ → Type 0
IsSlash c = c ≡ slash

strip_cons :
    (c : ℕ) (kept tail s : Text)
    → s ≡ kept ++ tail
    → All IsSlash tail
    → (stripped : Text) × All IsSlash stripped
      × (c ∷ s ≡ (if eqb c slash && is_empty kept then [] else c ∷ kept) ++ stripped)
strip_cons c [] tail s q a = elim (Bool-cases (eqb c slash)) [
  | inl y ↦ (c ∷ tail, (ground arith, a), rw y (ap (λ u. c ∷ u) q))
  | inr n ↦ (tail, a, rw n (ap (λ u. c ∷ u) q))
]
strip_cons c (k ∷ ks) tail s q a = elim (Bool-cases (eqb c slash)) [
  | inl y ↦ (tail, a, rw y (ap (λ u. c ∷ u) q))
  | inr n ↦ (tail, a, rw n (ap (λ u. c ∷ u) q))
]

rstrip_slash-split :
    (s : Text) → (stripped : Text) × All IsSlash stripped × (s ≡ rstrip_slash s ++ stripped)
unfolding rstrip_slash
rstrip_slash-split [] = ([], tt, refl)
rstrip_slash-split (c ∷ s) =
    let (tail, a, q) = rstrip_slash-split s in strip_cons c (rstrip_slash s) tail s q a

-- The prefix that every accepted URL keeps.
abbrev pub HasRtmp : Text → Type 0
HasRtmp out = (rest : Text) × (out ≡ codes "rtmp" ++ rest)

starts_with-split : (p s : Text) → starts_with p s ≡ true → (rest : Text) × (s ≡ p ++ rest)
starts_with-split [] s h = (s, refl)
starts_with-split (p ∷ ps) [] h = ground arith
starts_with-split (p ∷ ps) (c ∷ s) h =
    let (rest, q) = starts_with-split ps s (ground arith) in (rest, ground (arith, q))

has_scheme-HasRtmp : (url : Text) → has_scheme url ≡ true → HasRtmp url
has_scheme-HasRtmp url h = elim (Bool-cases (starts_with (codes "rtmp://") url)) [
  | inl y ↦ let (rest, q) = starts_with-split (codes "rtmp://") url y in (codes "://" ++ rest, q)
  | inr n ↦
      let (rest, q) = starts_with-split (codes "rtmps://") url (ground arith) in
      (codes "s://" ++ rest, q)
]

rstrip_slash-HasRtmp : (url : Text) → HasRtmp url → HasRtmp (rstrip_slash url)
unfolding rstrip_slash
rstrip_slash-HasRtmp url (rest, q) = (rstrip_slash rest, ap rstrip_slash q)

replace_first-HasRtmp :
    (new url : Text) → HasRtmp url → HasRtmp (replace_first youtube_backup_host_prefix new url)
unfolding replace_first
replace_first-HasRtmp new url (rest, q) = (
  replace_first youtube_backup_host_prefix new rest,
  ap (replace_first youtube_backup_host_prefix new) q,
)

append-HasRtmp : (s t : Text) → HasRtmp s → HasRtmp (s ++ t)
append-HasRtmp s t (rest, q) = (rest ++ t, ap (λ u. u ++ t) q)

abbrev pub query_of : TargetType → WorkerRole → Text
query_of type role = if (type == youtube) && (role == backup) then youtube_backup_query else []

-- The URL with its slashes at the end: a YouTube backup has the first `a.rtmps.` replaced.
abbrev pub ingest_url : TargetType → Text → WorkerRole → Text
ingest_url type url role =
    if (type == youtube) && (role == backup)
    then replace_first youtube_backup_host_prefix youtube_backup_host_replace url
    else url

abbrev pub accepts : TargetType → Text → WorkerRole → Bool
accepts type url role = has_scheme url && not ((role == backup) && not (type == youtube))

-- A URL to which ffmpeg pushes: the user's own, or one slash between a base and the key.
pub record IsShaped (type : TargetType) (url key : Text) (role : WorkerRole) (out : Text)
    : Type 0 where
  pub scheme : HasRtmp out
  pub parts :
      ((out ≡ url) × (type ≡ custom) × (key ≡ []))
      ⊎ ((¬ ((type ≡ custom) × (key ≡ [])))
          × ((base stripped : Text) × (ingest_url type url role ≡ base ++ stripped)
              × All IsSlash stripped
              × (ends_slash base ≡ false)
              × (out ≡ (base ++ slash ∷ key) ++ query_of type role)))

joined :
    (type : TargetType) (url key : Text) (role : WorkerRole) (base : Text)
    → ¬ ((type ≡ custom) × (key ≡ []))
    → ingest_url type url role ≡ base
    → HasRtmp base
    → IsShaped type url key role ((rstrip_slash base ++ slash ∷ key) ++ query_of type role)
joined type url key role base keyed i h =
    let (stripped, a, p) = rstrip_slash-split base in
    record {
      scheme =
          append-HasRtmp (rstrip_slash base ++ slash ∷ key) (query_of type role)
            (append-HasRtmp (rstrip_slash base) (slash ∷ key) (rstrip_slash-HasRtmp base h));
      parts = inr (keyed, (rstrip_slash base, stripped, i ∙ p, a, rstrip_slash-ends base, refl));
    }

plain :
    (type : TargetType) (url key : Text) (role : WorkerRole)
    → ¬ ((type ≡ custom) × (key ≡ []))
    → query_of type role ≡ []
    → ingest_url type url role ≡ url
    → HasRtmp url
    → IsShaped type url key role (rstrip_slash url ++ slash ∷ key)
plain type url key role keyed q i h =
    let (stripped, a, p) = rstrip_slash-split url in
    record {
      scheme = append-HasRtmp (rstrip_slash url) (slash ∷ key) (rstrip_slash-HasRtmp url h);
      parts = inr (
        keyed,
        (
          rstrip_slash url,
          stripped,
          i ∙ p,
          a,
          rstrip_slash-ends url,
          sym (ap (λ t. (rstrip_slash url ++ slash ∷ key) ++ t) q ∙ append-nil _),
        ),
      );
    }

custom_shape :
    (url key : Text) (role : WorkerRole)
    → HasRtmp url
    → IsShaped custom url key role (compose_accepted custom url key role)
unfolding compose_accepted
custom_shape url [] role h = record { scheme = h; parts = inl (refl, refl, refl) }
custom_shape url (k ∷ ks) role h = plain custom url (k ∷ ks) role (λ h. cc (h.1)) refl refl h

youtube_shape :
    (url key : Text) (role : WorkerRole)
    → HasRtmp url
    → IsShaped youtube url key role (compose_accepted youtube url key role)
unfolding compose_accepted
youtube_shape url key primary h = plain youtube url key primary (λ h. cc (h.0)) refl refl h
youtube_shape url key backup h =
    joined youtube url key backup
      (replace_first youtube_backup_host_prefix youtube_backup_host_replace url) (λ h. cc (h.0))
      refl (replace_first-HasRtmp youtube_backup_host_replace url h)

accepted_shape :
    (type : TargetType) (url key : Text) (role : WorkerRole)
    → HasRtmp url
    → IsShaped type url key role (compose_accepted type url key role)
unfolding compose_accepted
accepted_shape twitch url key role h = plain twitch url key role (λ h. cc (h.0)) refl refl h
accepted_shape kick url key role h = plain kick url key role (λ h. cc (h.0)) refl refl h
accepted_shape vk_live url key role h = plain vk_live url key role (λ h. cc (h.0)) refl refl h
accepted_shape custom url key role h = custom_shape url key role h
accepted_shape youtube url key role h = youtube_shape url key role h

compose_cases :
    (type : TargetType) (url key : Text) (role : WorkerRole)
    → ((accepts type url role ≡ false)
        × ((e : UrlError) × (compose_out_url type url key role ≡ err e)))
      ⊎ ((accepts type url role ≡ true)
          × (has_scheme url ≡ true)
          × (compose_out_url type url key role ≡ ok (compose_accepted type url key role)))
unfolding compose_out_url
compose_cases type [] key role = inl (refl, (empty_url, refl))
compose_cases type (c ∷ s) key role = elim (Bool-cases (has_scheme (c ∷ s))) [
  | inr bad ↦ inl (rw bad refl, (bad_scheme, rw bad refl))
  | inl fine ↦ elim (Bool-cases ((role == backup) && not (type == youtube))) [
    | inl stray ↦ inl (rw (fine, stray) refl, (backup_not_youtube, rw (fine, stray) refl))
    | inr fits ↦ inr (rw (fine, fits) refl, fine, rw (fine, fits) refl)
  ]
]

-- A URL is composed exactly when the user's URL has one of the two schemes and the role is backup
-- only for YouTube; otherwise one of the three errors is raised. What is composed begins with `rtmp`,
-- so that ffmpeg cannot read it as a flag, and is the user's URL for a custom target without a key, or
-- else the URL without its slashes at the end, one slash and the key; a YouTube backup has the first
-- `a.rtmps.` of its URL replaced, and the backup query at the end. The arguments of a worker with that URL end with it, and the input follows `-i`.
pub compose-build_argv :
    (type : TargetType) (url key input : Text) (role : WorkerRole) (id : WorkerId)
    → ((accepts type url role ≡ false)
        × ((e : UrlError) × (compose_out_url type url key role ≡ err e)))
      ⊎ ((accepts type url role ≡ true)
          × ((out : Text) × (compose_out_url type url key role ≡ ok out)
              × IsShaped type url key role out
              × ((before between : List Text) × (build_argv (record {
                worker_id = id;
                target_type = type;
                input_url = input;
                output_url = out;
              })
                    ≡ (before ++ codes "-i" ∷ input ∷ between) ++ out ∷ []))))
unfolding build_argv
compose-build_argv type url key input role id = elim (compose_cases type url key role) [
  | inl refused ↦ inl refused
  | inr (fits, scheme, q) ↦ inr (
    fits,
    (
      compose_accepted type url key role,
      q,
      accepted_shape type url key role (has_scheme-HasRtmp url scheme),
      (ffmpeg_base_args, codes "-c" ∷ codes "copy" ∷ [], refl),
    ),
  )
]
