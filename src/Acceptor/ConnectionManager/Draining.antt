-- ===== src/Acceptor/ConnectionManager/Draining.antt =====
-- wangle/acceptor/ConnectionManager.cpp and ConnectionManager.h: the graceful shutdown, which tells the
-- connections, at most 64 in a round of the event loop, first that a shutdown is pending and then to
-- close when they are idle. `closes` says which connections leave the manager at once when they are
-- told to close.
use provider_agent_proxy.Common.{
  ℕ, zero, suc, ◌-◌, min, Bool, true, false, not, List, [], ◌∷◌, Option, none, some, ltb,
  if◌then◌else◌, update, length, head, drop,
}
use provider_agent_proxy.Acceptor.ConnectionManager.{
  ConnectionManager, ShutdownState, not_shut, notify_pending, notify_complete, close_when_idle,
  close_complete, DrainState, sent_none, sent_notify, sent_close, fire_notify_pending_shutdown,
  fire_close, log, member, next_of, remove_connection, get_shutdown_state,
}

-- The number of connections that pct_ selects, and the first of them, counted from the back.
abbrev pub num_to_drain : ConnectionManager → ℕ
num_to_drain m = min (length m.conns) (m.pct (length m.conns))

unfoldable pub drain_start_iterator : ConnectionManager → Option ℕ
drain_start_iterator m =
    if m.all then head m.conns else head (drop (length m.conns - num_to_drain m) m.conns)

-- Whether closeWhenIdle() is called: by force, or after notifyPendingShutdown().
abbrev pub heeds_close : Bool → DrainState → Bool
heeds_close true s = true
heeds_close false sent_none = false
heeds_close false sent_notify = true
heeds_close false sent_close = false

-- ManagedConnection::fireCloseWhenIdle(), whose argument is the negation of notifyPendingShutdown_; a
-- connection that is told to close leaves if `closes` says so.
abbrev pub told_close : ℕ → ConnectionManager → ConnectionManager
told_close c m =
    log (fire_close c ∷ []) (record m { drain_states = update m.drain_states c sent_close })

unfoldable pub close_idle : (ℕ → Bool) → ℕ → ConnectionManager → ConnectionManager
unfolding remove_connection
close_idle closes c m =
    if heeds_close (not m.notify_pending_shutdown) (m.drain_states c)
    then if closes c then remove_connection c (told_close c m) else told_close c m
    else m

-- What a round does with a connection.
unfoldable pub visit : (ℕ → Bool) → ℕ → ConnectionManager → ConnectionManager
unfolding close_idle
visit closes c m = elim m.shutdown_state [
  | notify_pending ↦ fire_notify_pending_shutdown c m
  | _ ↦ close_idle closes c m
]

-- The loop, with the number of connections that may still be visited.
unfoldable pub drain_loop :
    (ℕ → Bool) → ℕ → Option ℕ → ConnectionManager → ConnectionManager × Option ℕ
unfolding visit
drain_loop closes n none m = (m, none)
drain_loop closes zero (some c) m = (m, some c)
drain_loop closes (suc n) (some c) m = drain_loop closes n (next_of c m.conns) (visit closes c m)

-- What follows the loop, when it has reached the end.
unfoldable pub drained : ConnectionManager → ConnectionManager
unfolding drain_start_iterator
drained m = elim m.shutdown_state [
  | notify_pending ↦
      if m.grace_scheduled then record m { shutdown_state = notify_complete } else record m {
        shutdown_state = close_when_idle;
        drain_iterator = drain_start_iterator m;
        loop_scheduled = true;
      }
  | _ ↦ record m { shutdown_state = close_complete }
]

unfoldable pub after_loop : ConnectionManager × Option ℕ → ConnectionManager
unfolding drained
after_loop (m, none) = drained (record m { drain_iterator = none })
after_loop (m, some c) = record m { drain_iterator = some c; loop_scheduled = true }

-- The CHECK of DrainHelper::drainConnections().
abbrev pub is_draining : ShutdownState → Bool
is_draining not_shut = false
is_draining notify_pending = true
is_draining notify_complete = false
is_draining close_when_idle = true
is_draining close_complete = false

-- DrainHelper::drainConnections(); `none` when its CHECK fails.
unfoldable pub drain_round : (ℕ → Bool) → ConnectionManager → Option ConnectionManager
unfolding drain_loop after_loop
drain_round closes m =
    if is_draining m.shutdown_state
    then some (after_loop (drain_loop closes 64 m.drain_iterator m))
    else none

abbrev pub begin_drain : ℕ → ConnectionManager → ConnectionManager
begin_drain grace m =
    if ltb 0 grace
    then record m { shutdown_state = notify_pending; grace_scheduled = true }
    else record m { shutdown_state = close_when_idle; notify_pending_shutdown = false }

unfoldable pub start_drain : (ℕ → Bool) → ℕ → ConnectionManager → Option ConnectionManager
unfolding drain_start_iterator drain_round
start_drain closes grace m =
    let begun = begin_drain grace m in
    drain_round closes (record begun { drain_iterator = drain_start_iterator begun })

unfoldable pub start_drain_all : (ℕ → Bool) → ℕ → ConnectionManager → Option ConnectionManager
unfolding start_drain
start_drain_all closes grace m =
    start_drain closes grace (record m { all = true; pct = λ n. n; grace_scheduled = false })

unfoldable pub start_drain_partial :
    (ℕ → Bool) → (ℕ → ℕ) → ℕ → ConnectionManager → Option ConnectionManager
unfolding start_drain
start_drain_partial closes pct grace m =
    start_drain closes grace (record m { all = false; pct = pct })

unfoldable pub initiate_graceful_shutdown :
    (ℕ → Bool) → ℕ → ConnectionManager → Option ConnectionManager
unfolding start_drain_all
initiate_graceful_shutdown closes grace m = elim (get_shutdown_state m) [
  | not_shut ↦ start_drain_all closes grace m
  | _ ↦ some m
]

unfoldable pub drain_connections :
    (ℕ → Bool) → (ℕ → ℕ) → ℕ → ConnectionManager → Option ConnectionManager
unfolding start_drain_partial
drain_connections closes pct grace m = elim (get_shutdown_state m) [
  | not_shut ↦ start_drain_partial closes pct grace m
  | _ ↦ some m
]

-- The callback of the event loop, and the timeout of the grace period, when they are scheduled.
unfoldable pub run_loop_callback : (ℕ → Bool) → ConnectionManager → Option ConnectionManager
unfolding drain_round
run_loop_callback closes m = drain_round closes (record m { loop_scheduled = false })

unfoldable pub grace_expired : (ℕ → Bool) → ConnectionManager → Option ConnectionManager
unfolding drain_start_iterator drain_round
grace_expired closes m =
    let fired = record m { grace_scheduled = false } in
    elim m.shutdown_state [
      | notify_complete ↦
          let closing = record fired { shutdown_state = close_when_idle } in
          drain_round closes (record closing { drain_iterator = drain_start_iterator closing })
      | _ ↦ some fired
    ]

-- The closes that addConnection() has put off to the end of the loop.
unfoldable pub run_late_closes : (ℕ → Bool) → List ℕ → ConnectionManager → ConnectionManager
unfolding close_idle
run_late_closes closes [] m = m
run_late_closes closes (c ∷ cs) m =
    run_late_closes closes cs (if member c m.conns then close_idle closes c m else m)
