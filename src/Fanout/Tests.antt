-- ===== src/Fanout/Tests.antt =====
-- The bus at concrete inputs.
use restream_plus.Fanout.Worker.{WorkerId}
use restream_plus.Base.Texts.{Text, codes}
use restream_plus.Fanout.EventBus.{EventBus, put_event, new, drain_batch}
use restream_plus.Fanout.EventBus.Delivery.{run, Op, puts, drains, Loses, put_of, delivery}
use restream_plus.Domain.TargetTypes.{youtube, custom}
use restream_plus.Domain.WorkerState.{primary, backup}
use restream_plus.Fanout.OutUrl.{
  compose_out_url, compose_accepted, rstrip_slash, replace_first, UrlError, build_argv,
}
use restream_plus.Fanout.OutUrl.Shape.{accepts, IsShaped, compose-build_argv}
use restream_plus.Base.{
  ℕ, List, [], ◌≡◌, ◌∷◌, ok, length, refl, ◌≤◌, ◌++◌, arith, false, err, ◌⊎◌, true,
}

abbrev traffic : List (Op ℕ)
traffic = puts 1 ∷ puts 2 ∷ puts 3 ∷ drains ∷ puts 4 ∷ []

abbrev two_slots : EventBus ℕ
two_slots = record { buf = []; capacity = 2; dropped_total = 0 }

traffic_drops_oldest : (run [] two_slots traffic).0 ≡ 2 ∷ 3 ∷ []
unfolding run put_event drain_batch
traffic_drops_oldest = refl

delivery_example :
    (bus : EventBus ℕ) × (new 2 ≡ ok bus)
    × (length (run [] bus traffic).1.buf ≤ 2)
    × Loses
        ((run [] bus traffic).0 ++ (run [] bus traffic).1.buf)
        (put_of traffic)
        (run [] bus traffic).1.dropped_total
delivery_example = delivery 2 traffic (omega arith)

abbrev backup_url : Text
backup_url = codes "rtmps://a.rtmps.youtube.com:443/live2/"

backup_url_swaps_host :
    compose_out_url youtube backup_url (codes "key") backup
    ≡ ok (codes "rtmps://b.rtmps.youtube.com:443/live2/key?backup=1")
unfolding compose_out_url compose_accepted rstrip_slash replace_first
backup_url_swaps_host = refl

-- A scheme with nothing behind it loses its own slashes.
bare_scheme_loses_slashes :
    compose_out_url custom (codes "rtmp://") (codes "key") primary ≡ ok (codes "rtmp:/key")
unfolding compose_out_url compose_accepted rstrip_slash replace_first
bare_scheme_loses_slashes = refl

abbrev backup_id : WorkerId
backup_id = record { target_id = "yt"; role = backup }

compose-build_argv_example :
    ((accepts youtube backup_url backup ≡ false)
      × ((e : UrlError) × (compose_out_url youtube backup_url (codes "key") backup ≡ err e)))
    ⊎ ((accepts youtube backup_url backup ≡ true)
        × ((out : Text) × (compose_out_url youtube backup_url (codes "key") backup ≡ ok out)
            × IsShaped youtube backup_url (codes "key") backup out
            × ((before between : List Text) × (build_argv (record {
              worker_id = backup_id;
              target_type = youtube;
              input_url = codes "rtmp://in";
              output_url = out;
            })
                  ≡ (before ++ codes "-i" ∷ codes "rtmp://in" ∷ between) ++ out ∷ []))))
compose-build_argv_example =
    compose-build_argv youtube backup_url (codes "key") (codes "rtmp://in") backup backup_id
