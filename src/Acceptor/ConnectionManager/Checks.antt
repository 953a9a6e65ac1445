-- ===== src/Acceptor/ConnectionManager/Checks.antt =====
-- The CHECK of drainConnections(), which the callback of the event loop may fail.
use provider_agent_proxy.Common.{
  ℕ, ◌≡◌, ◌≢◌, refl, sym, ap, ◌∙◌, subst, arith, Bool, true, false, not, ◌||◌, [], Option, none,
  some, inl, inr, Bool-cases,
}
use provider_agent_proxy.Acceptor.ConnectionManager.{
  ConnectionManager, ShutdownState, not_shut, notify_pending, notify_complete, close_when_idle,
  close_complete, get_shutdown_state,
}
use provider_agent_proxy.Acceptor.ConnectionManager.Draining.{
  drain_loop, drain_round, after_loop, drained, is_draining, begin_drain, start_drain,
  start_drain_all, start_drain_partial, drain_start_iterator, initiate_graceful_shutdown,
  drain_connections, run_loop_callback, grace_expired, run_late_closes,
}
use provider_agent_proxy.Acceptor.ConnectionManager.Dropping.{
  drop_all_connections, drop_idle_connections, stop_draining_for_shutdown,
}
use provider_agent_proxy.Acceptor.ConnectionManager.Visits.{Settings, settings, drain_loop-settings}
use provider_agent_proxy.Acceptor.ConnectionManager.Idle.{Change, make_change}
use provider_agent_proxy.Acceptor.ConnectionManager.Undisturbed.{
  make_change-settings, idle_settings, run_late_closes-settings,
}

-- All calls but dropConnections(); the last three come from the event loop.
pub data Event : Type 0 where
  changes : Change → Event
  shuts_down : ℕ → Event
  drains_part : (ℕ → ℕ) → ℕ → Event
  drops_all : Event
  drops_idle : ℕ → Event
  round_runs grace_ends late_closes_run : Event

-- A drain is started only when no round is scheduled, and the event loop runs what is scheduled.
abbrev pub can_happen : Event → ConnectionManager → Bool
can_happen (changes c) m = true
can_happen (shuts_down g) m = not m.loop_scheduled
can_happen (drains_part pct g) m = not m.loop_scheduled
can_happen drops_all m = true
can_happen (drops_idle n) m = true
can_happen round_runs m = m.loop_scheduled
can_happen grace_ends m = m.grace_scheduled
can_happen late_closes_run m = true

module _ (closes : ℕ → Bool) (idle_time : ℕ → ℕ) where
  unfoldable pub manage : Event → ConnectionManager → Option ConnectionManager
  unfolding make_change initiate_graceful_shutdown drain_connections drop_all_connections
      drop_idle_connections run_loop_callback grace_expired run_late_closes
  manage (changes c) m = some (make_change c m)
  manage (shuts_down g) m = initiate_graceful_shutdown closes g m
  manage (drains_part pct g) m = drain_connections closes pct g m
  manage drops_all m = some (drop_all_connections m)
  manage (drops_idle n) m = some (drop_idle_connections idle_time n m).0
  manage round_runs m = run_loop_callback closes m
  manage grace_ends m = grace_expired closes m
  manage late_closes_run m =
      some (run_late_closes closes m.late_closes (record m { late_closes = [] }))

-- A round is scheduled only while the manager is draining.
abbrev pub Orderly : ConnectionManager → Type 0
Orderly m = not m.loop_scheduled || is_draining m.shutdown_state ≡ true

Orderly-settings : (m m' : ConnectionManager) → settings m' ≡ settings m → Orderly m → Orderly m'
Orderly-settings m m' same o =
    ap (λ (x : Settings). not x.loop_scheduled || is_draining x.shutdown_state) same ∙ o

after_loop-Orderly :
    (r : ConnectionManager × Option ℕ)
    → r.0.loop_scheduled ≡ false
    → is_draining r.0.shutdown_state ≡ true
    → Orderly (after_loop r)
unfolding after_loop drained drain_start_iterator
after_loop-Orderly (m, none) quiet on = ground arith
after_loop-Orderly (m, some c) quiet on = ground arith

-- A call that returns, and after which the manager is orderly.
abbrev Goes : Option ConnectionManager → Type 0
Goes o = (m' : ConnectionManager) × (o ≡ some m') × Orderly m'

module _ (closes : ℕ → Bool) where
  drain_round-Goes :
      (m : ConnectionManager)
      → m.loop_scheduled ≡ false
      → is_draining m.shutdown_state ≡ true
      → Goes (drain_round closes m)
  unfolding drain_round
  drain_round-Goes m quiet on =
      let r = drain_loop closes 64 m.drain_iterator m in
      let kept = drain_loop-settings closes 64 m.drain_iterator m in
      (
        after_loop r,
        simp (on, drain_round),
        after_loop-Orderly r (ap (λ (x : Settings). x.loop_scheduled) kept ∙ quiet)
            (ap (λ (x : Settings). is_draining x.shutdown_state) kept ∙ on),
      )

  start_drain-Goes :
      (g : ℕ) (m : ConnectionManager) → m.loop_scheduled ≡ false → Goes (start_drain closes g m)
  unfolding start_drain
  start_drain-Goes g m quiet =
      drain_round-Goes
        (record (begin_drain g m) { drain_iterator = drain_start_iterator (begin_drain g m) })
        (loop_kept g m ∙ quiet) (draining g m)
    where
      loop_kept :
          (g : ℕ) (m : ConnectionManager) → (begin_drain g m).loop_scheduled ≡ m.loop_scheduled
      loop_kept g m = ground arith

      draining :
          (g : ℕ) (m : ConnectionManager) → is_draining (begin_drain g m).shutdown_state ≡ true
      draining g m = ground arith

  -- The two starts, by the state that they ask for.
  unless_shut :
      (s : ShutdownState) (m : ConnectionManager) (o : Option ConnectionManager)
      → Orderly m
      → Goes o
      → Goes (elim s [ not_shut ↦ o | _ ↦ some m ])
  unless_shut not_shut m o kept goes = goes
  unless_shut notify_pending m o kept goes = (m, refl, kept)
  unless_shut notify_complete m o kept goes = (m, refl, kept)
  unless_shut close_when_idle m o kept goes = (m, refl, kept)
  unless_shut close_complete m o kept goes = (m, refl, kept)

  -- The manager whose grace period is over, and that begins to close.
  abbrev closing : ConnectionManager → ConnectionManager
  closing m = record m { grace_scheduled = false; shutdown_state = close_when_idle }

  grace_expired_complete :
      (m : ConnectionManager)
      → m.shutdown_state ≡ notify_complete
      → grace_expired closes m
        ≡ drain_round closes
            (record (closing m) { drain_iterator = drain_start_iterator (closing m) })
  unfolding grace_expired
  grace_expired_complete m h = simp (h, grace_expired)

  grace_expired_ignored :
      (s : ShutdownState) (m : ConnectionManager)
      → m.shutdown_state ≡ s
      → s ≢ notify_complete
      → grace_expired closes m ≡ some (record m { grace_scheduled = false })
  unfolding grace_expired
  grace_expired_ignored not_shut m h k = simp (h, grace_expired)
  grace_expired_ignored notify_pending m h k = simp (h, grace_expired)
  grace_expired_ignored notify_complete m h k = absurd (k refl)
  grace_expired_ignored close_when_idle m h k = simp (h, grace_expired)
  grace_expired_ignored close_complete m h k = simp (h, grace_expired)

  quiet_when_complete :
      (m : ConnectionManager)
      → m.shutdown_state ≡ notify_complete
      → Orderly m
      → m.loop_scheduled ≡ false
  quiet_when_complete m is o = elim (Bool-cases m.loop_scheduled) [
    | inl on ↦ absurd (ground (arith, o, on))
    | inr off ↦ off
  ]

  ignored-Goes :
      (s : ShutdownState) (m : ConnectionManager)
      → m.shutdown_state ≡ s
      → s ≢ notify_complete
      → Orderly m
      → Goes (grace_expired closes m)
  ignored-Goes s m is other o =
      (record m { grace_scheduled = false }, grace_expired_ignored s m is other, o)

  grace_expired-Goes :
      (s : ShutdownState) (m : ConnectionManager)
      → m.shutdown_state ≡ s
      → Orderly m
      → Goes (grace_expired closes m)
  grace_expired-Goes notify_complete m is o = subst Goes (sym (grace_expired_complete m is)) (
      drain_round-Goes (record (closing m) { drain_iterator = drain_start_iterator (closing m) })
        (quiet_when_complete m is o) refl)
  grace_expired-Goes not_shut m is o = ignored-Goes not_shut m is (λ e. ground arith) o
  grace_expired-Goes notify_pending m is o = ignored-Goes notify_pending m is (λ e. ground arith) o
  grace_expired-Goes close_when_idle m is o =
      ignored-Goes close_when_idle m is (λ e. ground arith) o
  grace_expired-Goes close_complete m is o = ignored-Goes close_complete m is (λ e. ground arith) o

-- Calls in which a drain is started only when no round is scheduled, and without dropConnections:
-- in a manager in which a round is scheduled only while it is draining, every call returns, so that
-- the CHECK of drainConnections() holds, and leaves such a manager.
pub manage-Orderly :
    (closes : ℕ → Bool) (idle_time : ℕ → ℕ) (e : Event) (m : ConnectionManager)
    → Orderly m
    → can_happen e m ≡ true
    → (m' : ConnectionManager) × (manage closes idle_time e m ≡ some m') × Orderly m'
unfolding manage initiate_graceful_shutdown drain_connections start_drain_all start_drain_partial
    drop_idle_connections drop_all_connections run_loop_callback stop_draining_for_shutdown
manage-Orderly closes idle_time (changes c) m o can =
    (make_change c m, refl, Orderly-settings m (make_change c m) (make_change-settings c m) o)
manage-Orderly closes idle_time (shuts_down g) m o can =
    unless_shut closes (get_shutdown_state m) m (start_drain_all closes g m) o (
      start_drain-Goes closes g (record m { all = true; pct = λ n. n; grace_scheduled = false })
        (ground arith))
manage-Orderly closes idle_time (drains_part pct g) m o can =
    unless_shut closes (get_shutdown_state m) m (start_drain_partial closes pct g m) o
      (start_drain-Goes closes g (record m { all = false; pct = pct }) (ground arith))
manage-Orderly closes idle_time drops_all m o can = (drop_all_connections m, refl, ground arith)
manage-Orderly closes idle_time (drops_idle n) m o can = (
  (drop_idle_connections idle_time n m).0,
  refl,
  Orderly-settings m (drop_idle_connections idle_time n m).0 (idle_settings idle_time n m) o,
)
manage-Orderly closes idle_time round_runs m o can =
    drain_round-Goes closes (record m { loop_scheduled = false }) refl (ground arith)
manage-Orderly closes idle_time grace_ends m o can =
    grace_expired-Goes closes m.shutdown_state m refl o
manage-Orderly closes idle_time late_closes_run m o can =
    let late = record m { late_closes = [] } in
    (
      run_late_closes closes m.late_closes late,
      refl,
      Orderly-settings m (run_late_closes closes m.late_closes late)
          (run_late_closes-settings closes m.late_closes late) o,
    )
