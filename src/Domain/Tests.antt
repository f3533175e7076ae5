-- ===== src/Domain/Tests.antt =====
-- Runs of the domain's state machines, and their theorems at concrete inputs.
use restream_plus.Domain.CircuitBreaker.Window.{breaker_counts}
use restream_plus.Domain.CircuitBreaker.Calls.{Call, recent, log, no_calls}
use restream_plus.Domain.RunState.Reach.{drive, Embeds, missing, drive-live}
use restream_plus.Domain.CircuitBreaker.{CircuitBreakerPolicy}
use restream_plus.Domain.RunState.{action_eq}
use restream_plus.Base.{List, ◌≡◌, length, ◌∷◌, [], ok, refl, ◌↔◌, arith, ◌≤◌}
use restream_plus.Domain.CircuitBreaker
use restream_plus.Domain.CircuitBreaker.Calls
use restream_plus.Domain.RunState

-- Two failures of three within ten microseconds trip a breaker that tolerates one.
abbrev twitchy : CircuitBreakerPolicy
twitchy = record { max_failures = 2; window = 10; healthy_reset_after = 60 }

abbrev outage : List Call
outage = Calls.failed 1 ∷ Calls.failed 9 ∷ Calls.asked 12 ∷ Calls.failed 15 ∷ []

outage_trips :
    (CircuitBreaker.should_open (Calls.run (CircuitBreaker.new twitchy) outage) 16).1
    ≡ CircuitBreaker.open_verdict
unfolding CircuitBreaker.should_open Calls.run Calls.apply CircuitBreaker.new
    CircuitBreaker.record_failure
outage_trips = refl

breaker_counts_example :
    let n = length (recent twitchy 16 (log twitchy no_calls outage).failures) in
    ((CircuitBreaker.failure_count_in_window (Calls.run (CircuitBreaker.new twitchy) outage) 16).1
      ≡ n)
    × (((CircuitBreaker.should_open (Calls.run (CircuitBreaker.new twitchy) outage) 16).1
          ≡ CircuitBreaker.open_verdict)
        ↔ (2 ≤ n))
breaker_counts_example = breaker_counts twitchy outage 16 (omega arith)

abbrev evening : List RunState.RunAction
evening =
    RunState.start_requested ∷ RunState.workers_spawned ∷ RunState.obs_publish_began
    ∷ RunState.obs_publish_ended ∷ RunState.obs_publish_began ∷ []

evening_live : drive RunState.offline evening ≡ ok RunState.live
unfolding drive RunState.transition
evening_live = refl

drive-live_example : Embeds (missing RunState.offline) evening
drive-live_example = drive-live RunState.offline evening evening_live
