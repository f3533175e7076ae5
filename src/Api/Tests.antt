-- ===== src/Api/Tests.antt =====
-- The WebSocket of one client at concrete inputs: its handshake, and its queue.
use restream_plus.Base.Texts.{Text}
use restream_plus.Api.Ws.Follows.{Op, arrives, forwards, run, Follows, arrived}
use restream_plus.Api.Ws.Forward.{fresh, client_receives}
use restream_plus.Api.Ws.{offer, forward, WsRegistry}
use restream_plus.Base.{
  ℕ, suc, List, Option, some, ◌≡◌, ◌∷◌, [], true, false, length, ◌≤◌, refl, ◌+◌, nat_eq,
}

abbrev rendering : ℕ → Option ℕ
rendering e = some (10 + e)

-- The handler waits while three events reach a queue of two.
abbrev burst : List (Op ℕ)
burst = forwards true ∷ arrives 1 ∷ arrives 2 ∷ arrives 3 ∷ []

abbrev rounds : List (Op ℕ)
rounds = forwards true ∷ forwards true ∷ []

burst_sends_one :
    (run 2 rendering (run 2 rendering (fresh 2 rendering) burst) rounds).sent ≡ 11 ∷ []
unfolding run offer forward
burst_sends_one = refl

client_receives_example :
    Follows 2 rendering (arrived 2 rendering burst) (run 2 rendering (fresh 2 rendering) burst)
    × ((run 2 rendering (fresh 2 rendering) burst).sub.overflowed ≡ true
        → (length (run 2 rendering (run 2 rendering (fresh 2 rendering) burst) rounds).sent
            ≤ suc (length (run 2 rendering (fresh 2 rendering) burst).sent))
          × ((run 2 rendering (fresh 2 rendering) burst).waiting ≡ false
              → (run 2 rendering (run 2 rendering (fresh 2 rendering) burst) rounds).sent
                ≡ (run 2 rendering (fresh 2 rendering) burst).sent))
client_receives_example = client_receives 2 rendering burst rounds

abbrev own_cookie : Option Text
own_cookie = some (1 ∷ [])

abbrev nobody : WsRegistry ℕ
nobody = []
