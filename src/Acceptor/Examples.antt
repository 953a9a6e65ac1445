-- ===== src/Acceptor/Examples.antt =====
-- The connection manager with a few connections.
use provider_agent_proxy.Common.{
  ℕ, ◌≤◌, ◌<◌, ◌≡◌, ◌⊎◌, arith, refl, Bool, true, false, List, [], ◌∷◌, ◌++◌, none, some, ◌==◌,
  length, drop, if◌then◌else◌,
}
use provider_agent_proxy.Acceptor.ConnectionManager.{
  ConnectionManager, new_manager, close_when_idle, close_complete, member, erase, on_activated,
}
use provider_agent_proxy.Acceptor.ConnectionManager.Draining.{
  initiate_graceful_shutdown, run_loop_callback,
}
use provider_agent_proxy.Acceptor.ConnectionManager.Dropping.{
  drop_connections, drop_all_connections, drop_idle_connections, is_recent,
}
use provider_agent_proxy.Acceptor.ConnectionManager.Idle.{
  Change, adds, removes, activates, deactivates, IsZoned, make_changes, make_changes-IsZoned,
}
use provider_agent_proxy.Acceptor.ConnectionManager.EarlyDrop.{
  dropped, early, drop_idle_connections-early,
}
use provider_agent_proxy.Acceptor.ConnectionManager.Visits.{told}
use provider_agent_proxy.Acceptor.ConnectionManager.ClosingRound.{IsClosing}
use provider_agent_proxy.Acceptor.ConnectionManager.Graceful.{loop_rounds, initiate-tells_all}
use provider_agent_proxy.Acceptor.ConnectionManager.Stopping.{
  drop_connections-run_loop_callback, activation_skips,
}
use provider_agent_proxy.Acceptor.ConnectionManager.Checks.{
  manage, Orderly, shuts_down, manage-Orderly,
}

abbrev some_changes : List Change
some_changes =
    adds 1 true ∷ adds 2 false ∷ deactivates 1 ∷ deactivates 2 ∷ activates 1 ∷ removes 2 ∷ []

make_changes-IsZoned_example :
    IsZoned (make_changes some_changes (new_manager 100 true)) (1 ∷ []) []
make_changes-IsZoned_example =
    make_changes-IsZoned some_changes (new_manager 100 true) [] []
      (record { conns_are = refl; idle_at = refl; distinct = tt }) refl

-- Three connections, of which the last two are idle.
abbrev three : ConnectionManager
three = record (new_manager 100 true) { conns = 1 ∷ 2 ∷ 3 ∷ []; idle_iterator = some 2 }

abbrev idle_times : ℕ → ℕ
idle_times c = if c == 2 then 90 else 20

three-IsZoned : IsZoned three (1 ∷ []) (2 ∷ 3 ∷ [])
three-IsZoned = record {
  conns_are = refl;
  idle_at = refl;
  distinct = ((refl, (refl, tt)), ((refl, tt), (tt, tt)));
}

drop_idle_connections-early_example :
    ((three.timeout ≤ three.idle_threshold)
      × (drop_idle_connections idle_times 5 three ≡ (three, 0)))
    ⊎ ((three.idle_threshold < three.timeout)
        × (dropped (drop_idle_connections idle_times 5 three).0.calls
            ≡ dropped three.calls
              ++ early (λ c. is_recent three.idle_threshold (idle_times c)) 5 (2 ∷ 3 ∷ []))
        × ((drop_idle_connections idle_times 5 three).1
            ≡ length (early (λ c. is_recent three.idle_threshold (idle_times c)) 5 (2 ∷ 3 ∷ [])))
        × ((drop_idle_connections idle_times 5 three).1 ≤ 5)
        × IsZoned
            (drop_idle_connections idle_times 5 three).0
            (1 ∷ [])
            (drop (drop_idle_connections idle_times 5 three).1 (2 ∷ 3 ∷ [])))
drop_idle_connections-early_example =
    drop_idle_connections-early idle_times 5 three (1 ∷ []) (2 ∷ 3 ∷ []) three-IsZoned

abbrev closes_two : ℕ → Bool
closes_two c = c == 2

initiate-tells_all_example :
    (m₁ : ConnectionManager) × (m' : ConnectionManager) × (initiate_graceful_shutdown closes_two 0
        three
      ≡ some m₁)
    × (loop_rounds closes_two 0 m₁ ≡ some m')
    × (m'.shutdown_state ≡ close_complete)
    × (m'.loop_scheduled ≡ false)
    × (m'.conns ≡ 1 ∷ 3 ∷ [])
    × (told m'.calls ≡ 1 ∷ 2 ∷ 3 ∷ [])
initiate-tells_all_example =
    initiate-tells_all closes_two 0 three refl refl three-IsZoned.distinct (omega arith)

-- A drain with a round that is scheduled: connection 9 has been told to close.
abbrev draining : ConnectionManager
draining = record (new_manager 100 true) {
  conns = 9 ∷ 1 ∷ 2 ∷ 3 ∷ [];
  drain_iterator = some 1;
  shutdown_state = close_when_idle;
  loop_scheduled = true;
  notify_pending_shutdown = false;
}

draining-IsClosing : IsClosing draining (9 ∷ []) (1 ∷ 2 ∷ 3 ∷ [])
draining-IsClosing = record {
  conns_are = refl;
  drain_at = refl;
  distinct = ((refl, (refl, (refl, tt))), three-IsZoned.distinct);
  forced = (refl, refl);
}

drop_connections-run_loop_callback_example :
    ((drop_connections (λ n. 1) draining).loop_scheduled ≡ true)
    × (run_loop_callback closes_two (drop_connections (λ n. 1) draining) ≡ none)
    × ((drop_all_connections draining).loop_scheduled ≡ false)
drop_connections-run_loop_callback_example =
    drop_connections-run_loop_callback closes_two (λ n. 1) draining refl

activation_skips_example :
    (m' : ConnectionManager) × (loop_rounds closes_two 1 (on_activated 3 draining) ≡ some m')
    × (m'.shutdown_state ≡ close_complete)
    × (told m'.calls ≡ 1 ∷ 2 ∷ [])
    × (member 3 (1 ∷ erase 3 (2 ∷ 3 ∷ [])) ≡ false)
    × (member 3 m'.conns ≡ true)
activation_skips_example =
    activation_skips closes_two 0 draining (9 ∷ []) (2 ∷ 3 ∷ []) 1 3 draining-IsClosing refl
      (omega arith) refl

manage-Orderly_example :
    (m' : ConnectionManager) × (manage closes_two idle_times (shuts_down 0) three ≡ some m')
    × Orderly m'
manage-Orderly_example = manage-Orderly closes_two idle_times (shuts_down 0) three refl refl
