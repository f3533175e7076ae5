-- ===== src/Fanout/Retries.antt =====
-- app/fanout/ffmpeg_worker.py and backoff.py: the rounds of a worker whose process exits, again and
-- again, before its first frame.
pub mod Pace
pub mod Endless
use restream_plus.Fanout.FfmpegWorker.Outcome.{settle}
use restream_plus.Fanout.Backoff.{OverflowError, backoff}
use restream_plus.Fanout.FfmpegWorker.{
  Phase, FfmpegWorker, exited, delay_over, emitting, backing_off, no_task, spawning, waiting,
}
use restream_plus.Base.{List, Result, ok, err, ◌∷◌, ◌+◌, []}
use Prim.Native.Nat.{ℕ}

-- The backoff of `_lifecycle_loop` from `now`, whose delay was computed of the attempts before this
-- one; a worker in FAILED_OPEN does not come to it.
unfoldable pub wait_out : Phase → ℕ → ℕ → ℕ → FfmpegWorker → Result OverflowError (FfmpegWorker × ℕ)
wait_out backing_off attempt random now w = elim (backoff attempt random) [
  | err e ↦ err e
  | ok delay ↦ ok (delay_over backing_off w, now + delay)
]
wait_out no_task attempt random now w = ok (w, now)
wait_out spawning attempt random now w = ok (w, now)
wait_out waiting attempt random now w = ok (w, now)
wait_out (emitting target next) attempt random now w = ok (w, now)

-- One round: the process exits when it ran for a time, which counts the waits of the emissions too,
-- and the backoff draws its jitter.
unfoldable pub failed_round : ℕ × ℕ → FfmpegWorker → ℕ → Result OverflowError (FfmpegWorker × ℕ)
failed_round (ran, random) w clock =
    let w' = settle (exited (clock + ran) w.phase w) in
    wait_out w'.phase w.attempt random (clock + ran) w'

-- The worker and the clock behind the rounds, or the exception that ends the task.
unfoldable pub failed_rounds :
    List (ℕ × ℕ) → FfmpegWorker → ℕ → Result OverflowError (FfmpegWorker × ℕ)
failed_rounds [] w clock = ok (w, clock)
failed_rounds (round ∷ rounds) w clock = elim (failed_round round w clock) [
  | err e ↦ err e
  | ok (w', clock') ↦ failed_rounds rounds w' clock'
]
