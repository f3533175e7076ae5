-- ===== src/Fanout/OutUrl.antt =====
-- app/fanout/ffmpeg_urls.py and app/fanout/ffmpeg_args.py, with WorkerSpec of app/fanout/worker.py. A
-- text that the code walks is the list of its code points.
pub mod Shape
use restream_plus.Fanout.Worker.{WorkerSpec}
use restream_plus.Base.Texts.{Text, is_empty, starts_with, codes, drop_text}
use Prim.Native.Char.{code}
use Prim.Native.String.{String}
use restream_plus.Domain.TargetTypes.{TargetType, youtube, vk_live, custom, type_eq}
use restream_plus.Domain.WorkerState.{WorkerRole, backup, role_eq}
use restream_plus.Base.{
  ℕ, List, [], ◌∷◌, ◌++◌, Bool, true, false, ◌&&◌, ◌||◌, not, eqb, Result, ok, err, ◌==◌,
  if◌then◌else◌,
}

abbrev pub slash : ℕ
slash = 47

-- `str.rstrip("/")`
unfoldable pub rstrip_slash : Text → Text
rstrip_slash [] = []
rstrip_slash (c ∷ s) =
    let rest = rstrip_slash s in if eqb c slash && is_empty rest then [] else c ∷ rest

-- `str.replace(old, new, 1)`, with an `old` that is not empty.
unfoldable pub replace_first : Text → Text → Text → Text
replace_first old new [] = []
replace_first old new (c ∷ s) =
    let rest = replace_first old new s in
    if starts_with old (c ∷ s) then new ++ drop_text old (c ∷ s) else c ∷ rest

-- The three `ValueError`s of `compose_out_url`.
pub data UrlError : Type 0 where
  empty_url bad_scheme backup_not_youtube : UrlError

abbrev pub youtube_backup_host_prefix : Text
youtube_backup_host_prefix = codes "a.rtmps."

abbrev pub youtube_backup_host_replace : Text
youtube_backup_host_replace = codes "b.rtmps."

abbrev pub youtube_backup_query : Text
youtube_backup_query = codes "?backup=1"

abbrev pub has_scheme : Text → Bool
has_scheme url = starts_with (codes "rtmp://") url || starts_with (codes "rtmps://") url

-- The branches below the guards.
unfoldable pub compose_accepted : TargetType → Text → Text → WorkerRole → Text
compose_accepted type url key role =
    if type == vk_live
    then rstrip_slash url ++ slash ∷ key
    else if type == custom
    then if is_empty key then url else rstrip_slash url ++ slash ∷ key
    else if (type == youtube) && (role == backup)
    then rstrip_slash (replace_first youtube_backup_host_prefix youtube_backup_host_replace url)
      ++ slash ∷ key
      ++ youtube_backup_query
    else rstrip_slash url ++ slash ∷ key

unfoldable pub compose_out_url : TargetType → Text → Text → WorkerRole → Result UrlError Text
compose_out_url type url key role =
    if is_empty url
    then err empty_url
    else if not (has_scheme url)
    then err bad_scheme
    else if (role == backup) && not (type == youtube)
    then err backup_not_youtube
    else ok (compose_accepted type url key role)

abbrev pub ffmpeg_base_args : List Text
ffmpeg_base_args =
    codes "ffmpeg"
    ∷ codes "-hide_banner"
    ∷ codes "-loglevel"
    ∷ codes "error"
    ∷ codes "-nostats"
    ∷ codes "-progress"
    ∷ codes "pipe:1"
    ∷ codes "-rtmp_buffer"
    ∷ codes "100"
    ∷ codes "-fflags"
    ∷ codes "+nobuffer"
    ∷ codes "-flags"
    ∷ codes "low_delay"
    ∷ codes "-f"
    ∷ codes "flv"
    ∷ codes "-flvflags"
    ∷ codes "no_duration_filesize"
    ∷ codes "-flush_packets"
    ∷ codes "1"
    ∷ []

-- `FFMPEG_BASE_ARGS_BY_TYPE.get(type, ())`, of an empty table.
abbrev pub overrides : TargetType → List Text
overrides type = []

unfoldable pub build_argv : WorkerSpec → List Text
build_argv spec =
    ffmpeg_base_args
    ++ codes "-i" ∷ spec.input_url ∷ codes "-c" ∷ codes "copy" ∷ overrides spec.target_type
    ++ spec.output_url ∷ []
