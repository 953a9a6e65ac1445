-- ===== src/Acceptor/ConnectionManager/Dropping.antt =====
-- wangle/acceptor/ConnectionManager.cpp: connections that are dropped. A connection that is dropped by
-- dropIdleConnections() leaves the manager, as its destructor does.
use provider_agent_proxy.Common.{
  ℕ, zero, suc, min, Bool, true, false, ◌||◌, List, [], ◌∷◌, none, some, ◌==◌, leb, if◌then◌else◌,
  length,
}
use provider_agent_proxy.Acceptor.ConnectionManager.{
  ConnectionManager, close_complete, Call, fire_drop, cancel, on_empty, log, if_callback, next_of,
  remove_connection,
}

unfoldable pub stop_draining_for_shutdown : ConnectionManager → ConnectionManager
stop_draining_for_shutdown m = record m { shutdown_state = close_complete; grace_scheduled = false }

-- What is called for each connection that dropAllConnections() takes from the list.
abbrev pub drop_calls : List ℕ → List Call
drop_calls [] = []
drop_calls (c ∷ cs) = cancel c ∷ fire_drop c ∷ drop_calls cs

unfoldable pub drop_all_connections : ConnectionManager → ConnectionManager
unfolding stop_draining_for_shutdown
drop_all_connections m =
    let stopped = log (drop_calls m.conns) (stop_draining_for_shutdown m) in
    if_callback (on_empty ∷ []) (record stopped {
      conns = [];
      drain_iterator = none;
      idle_iterator = none;
      loop_scheduled = false;
    })

-- The loop of dropConnections(), with the number of connections to drop.
unfoldable pub drop_loop : ℕ → ConnectionManager → ConnectionManager
unfolding remove_connection
drop_loop zero m = m
drop_loop (suc n) m = elim m.conns [
  | [] ↦ m
  | c ∷ _ ↦ drop_loop n (log (fire_drop c ∷ []) (remove_connection c m))
]

-- `pct` maps the number of connections to its product with the argument, as a size_t.
unfoldable pub drop_connections : (ℕ → ℕ) → ConnectionManager → ConnectionManager
unfolding stop_draining_for_shutdown drop_loop
drop_connections pct m =
    let stopped = stop_draining_for_shutdown m in
    drop_loop (min (length stopped.conns) (pct (length stopped.conns))) stopped

-- Whether a connection has been idle for too short a time to be dropped early; the first argument is
-- idleConnEarlyDropThreshold_.
abbrev pub is_recent : ℕ → ℕ → Bool
is_recent threshold idle_time = (idle_time == 0) || leb idle_time threshold

-- The loop of dropIdleConnections(), with the number of connections that may still be dropped; the
-- number of those dropped is returned.
unfoldable pub drop_idle_loop : (ℕ → ℕ) → ℕ → ConnectionManager → ConnectionManager × ℕ
unfolding remove_connection
drop_idle_loop idle_time zero m = (m, 0)
drop_idle_loop idle_time (suc n) m = elim m.idle_iterator [
  | none ↦ (m, 0)
  | some c ↦ elim (is_recent m.idle_threshold (idle_time c)) [
    | true ↦ (m, 0)
    | false ↦
        let moved = record m { idle_iterator = next_of c m.conns } in
        let (rest, count) =
          drop_idle_loop idle_time n (remove_connection c (log (fire_drop c ∷ []) moved)) in
        (rest, suc count)
  ]
]

-- `idle_time` is getIdleTime() of the connections.
unfoldable pub drop_idle_connections : (ℕ → ℕ) → ℕ → ConnectionManager → ConnectionManager × ℕ
unfolding drop_idle_loop
drop_idle_connections idle_time num m =
    if leb m.timeout m.idle_threshold then (m, 0) else drop_idle_loop idle_time num m
