-- ===== src/Acceptor/ConnectionManager/Undisturbed.antt =====
-- What changes of the list, drops and late closes leave as it is.
use provider_agent_proxy.Common.{
  ℕ, ◌≡◌, refl, ap, ◌∙◌, arith, Bool, true, false, List, [], ◌∷◌, inl, inr, Option-cases,
  Bool-cases, zero, suc, leb, if◌then◌else◌,
}
use provider_agent_proxy.Acceptor.ConnectionManager.{
  ConnectionManager, log, fire_drop, next_of, member, schedule_timeout, link_connection,
  tell_pending, close_later, add_connection, remove_connection, on_activated, on_deactivated,
}
use provider_agent_proxy.Acceptor.ConnectionManager.Draining.{run_late_closes, close_idle}
use provider_agent_proxy.Acceptor.ConnectionManager.Dropping.{
  drop_idle_connections, drop_idle_loop, is_recent,
}
use provider_agent_proxy.Acceptor.ConnectionManager.Visits.{settings, remove_connection-settings}
use provider_agent_proxy.Acceptor.ConnectionManager.EarlyDrop.{
  one_dropped, drop_idle_loop-end, drop_idle_loop-recent, drop_idle_loop-drops,
}
use provider_agent_proxy.Acceptor.ConnectionManager.Idle.{
  Change, make_change, adds, removes, activates, deactivates,
}

-- The parts of addConnection().
module _ (c : ℕ) (m : ConnectionManager) where
  link_connection-settings : settings (link_connection c m) ≡ settings m
  link_connection-settings = ground arith

  tell_pending-settings : settings (tell_pending c m) ≡ settings m
  tell_pending-settings = ground arith

  close_later-settings : settings (close_later c m) ≡ settings m
  close_later-settings = ground arith

  timed-settings :
      (t : Bool) → settings (if t then schedule_timeout c m.timeout m else m) ≡ settings m
  unfolding schedule_timeout
  timed-settings t = ground arith

pub make_change-settings :
    (c : Change) (m : ConnectionManager) → settings (make_change c m) ≡ settings m
unfolding make_change add_connection schedule_timeout on_activated on_deactivated
make_change-settings (adds c t) m =
    let linked = link_connection c m in
    let timed = if t then schedule_timeout c linked.timeout linked else linked in
    close_later-settings c (tell_pending c timed)
    ∙ tell_pending-settings c timed
    ∙ timed-settings c linked t
    ∙ link_connection-settings c m
make_change-settings (removes c) m = remove_connection-settings c m
make_change-settings (activates c) m = refl
make_change-settings (deactivates c) m = refl

drop_idle_loop-settings :
    (idle_time : ℕ → ℕ) (n : ℕ) (m : ConnectionManager)
    → settings (drop_idle_loop idle_time n m).0 ≡ settings m
unfolding drop_idle_loop
drop_idle_loop-settings idle_time zero m = refl
drop_idle_loop-settings idle_time (suc n) m = elim (Option-cases m.idle_iterator) [
  | inl is ↦ ap (λ r. settings r.0) (drop_idle_loop-end idle_time n m is)
  | inr (c, is) ↦ elim (Bool-cases (is_recent m.idle_threshold (idle_time c))) [
    | inl young ↦ ap (λ r. settings r.0) (drop_idle_loop-recent idle_time n m c is young)
    | inr old ↦
        ap (λ r. settings r.0) (drop_idle_loop-drops idle_time n m c is old)
        ∙ drop_idle_loop-settings idle_time n (one_dropped c m)
        ∙ remove_connection-settings c
            (log (fire_drop c ∷ []) (record m { idle_iterator = next_of c m.conns }))
  ]
]

pub idle_settings :
    (idle_time : ℕ → ℕ) (n : ℕ) (m : ConnectionManager)
    → settings (drop_idle_connections idle_time n m).0 ≡ settings m
unfolding drop_idle_connections
idle_settings idle_time n m = elim (Bool-cases (leb m.timeout m.idle_threshold)) [
  | inl is ↦ simp (is, drop_idle_connections)
  | inr is ↦ rw is (drop_idle_loop-settings idle_time n m)
]

close_idle-settings :
    (closes : ℕ → Bool) (c : ℕ) (m : ConnectionManager)
    → settings (close_idle closes c m) ≡ settings m
unfolding close_idle remove_connection
close_idle-settings closes c m = ground arith

pub run_late_closes-settings :
    (closes : ℕ → Bool) (cs : List ℕ) (m : ConnectionManager)
    → settings (run_late_closes closes cs m) ≡ settings m
unfolding run_late_closes
run_late_closes-settings closes [] m = refl
run_late_closes-settings closes (c ∷ cs) m =
    run_late_closes-settings closes cs (if member c m.conns then close_idle closes c m else m)
    ∙ one c m
  where
    one :
        (c : ℕ) (m : ConnectionManager)
        → settings (if member c m.conns then close_idle closes c m else m) ≡ settings m
    one c m =
        elim (member c m.conns)
          as (λ b. settings (if b then close_idle closes c m else m) ≡ settings m) [
            | true ↦ close_idle-settings closes c m
            | false ↦ refl
          ]
