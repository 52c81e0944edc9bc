-- ===== src/Leaderboard/Hub/Examples.antt =====
-- A client connects, is registered, and gets a message.
use trade_bench.Common.{ℕ, suc, ◌≡◌, refl, true, false, [], ◌∷◌, ◌++◌}
use trade_bench.Leaderboard.Hub.{
  Hub, new_hub, is_in, on_register, on_broadcast, Reach, start, next, connect, register, broadcast,
}
use trade_bench.Leaderboard.Hub.Safety.{hub_never_panics}
use trade_bench.Leaderboard.Hub.Delivery.{received, broadcast_since, hub_delivers}

abbrev connected : Hub
connected = record new_hub {
  registering = new_hub.next_client ∷ new_hub.registering;
  next_client = suc new_hub.next_client;
}

abbrev told : Hub
told = on_broadcast 7 (0 ∷ []) (on_register connected 0)

told-Reach : Reach told
unfolding new_hub on_register
told-Reach =
    next (next (next start (connect new_hub)) (register connected 0 refl))
      (broadcast (on_register connected 0) 7 (0 ∷ []) (λ c. refl) (refl, tt))

hub_never_panics_example :
    (told.panicked ≡ false)
    × ((c : ℕ) → is_in c told.clients ≡ true → (told.channels c).is_closed ≡ false)
hub_never_panics_example = hub_never_panics told told-Reach

hub_delivers_example :
    received 0 told-Reach ++ (told.channels 0).buffer ≡ broadcast_since 0 told-Reach
unfolding new_hub on_register on_broadcast
hub_delivers_example = hub_delivers told told-Reach 0 refl refl
