-- ===== src/Fanout/Worker.antt =====
-- app/fanout/worker.py: what the supervisor and a worker exchange.
use restream_plus.Base.Texts.{Text}
use restream_plus.Domain.TargetTypes.{TargetType}
use restream_plus.Domain.WorkerState.{WorkerRole, role_eq}
use restream_plus.Base.{String, Bool, true, ◌≡◌, ◌↔◌, ◌&&◌, arith, Eq, ◌==◌, string_eq}

pub record WorkerId : Type 0 where
  pub target_id : String
  pub role : WorkerRole

abbrev pub id_same : WorkerId → WorkerId → Bool
id_same v w = (v.target_id == w.target_id) && (v.role == w.role)

pub id_same_iff : (v w : WorkerId) → (id_same v w ≡ true) ↔ (v ≡ w)
id_same_iff v w =
    ground (arith, string_eq.same_iff v.target_id w.target_id, role_eq.same_iff v.role w.role)

instance abbrev pub worker_id_eq : Eq WorkerId
worker_id_eq = record { same = id_same; same_iff = id_same_iff }

pub record WorkerSpec : Type 0 where
  pub worker_id : WorkerId
  pub target_type : TargetType
  pub input_url : Text
  pub output_url : Text
