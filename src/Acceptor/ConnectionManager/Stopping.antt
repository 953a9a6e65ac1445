-- ===== src/Acceptor/ConnectionManager/Stopping.antt =====
-- Drains that are disturbed: by dropConnections(), and by a connection that becomes busy.
use mathlib.Core.List.{append_assoc}
use provider_agent_proxy.Common.{
  ℕ, zero, suc, ◌*◌, ◌≤◌, arith, ◌≡◌, refl, sym, ap, subst, ◌∙◌, Bool, true, false, List, [], ◌∷◌,
  ◌++◌, none, some, inl, inr, List-cases, min, length, ◌==◌, Differs, NoDup, All-right,
}
use provider_agent_proxy.Acceptor.ConnectionManager.{
  ConnectionManager, close_complete, fire_drop, log, member, erase, remove_connection, on_activated,
}
use provider_agent_proxy.Acceptor.ConnectionManager.Draining.{run_loop_callback, drain_round}
use provider_agent_proxy.Acceptor.ConnectionManager.Dropping.{
  drop_loop, drop_connections, drop_all_connections, stop_draining_for_shutdown,
}
use provider_agent_proxy.Acceptor.ConnectionManager.Lists.{
  erase-append, erase-Differs, erased-Differs, NoDup-erase, Differs→member-false,
  member-right→Differs, length-erase,
}
use provider_agent_proxy.Acceptor.ConnectionManager.Visits.{
  told, Settings, settings, remove_connection-settings,
}
use provider_agent_proxy.Acceptor.ConnectionManager.ClosingRound.{IsClosing}
use provider_agent_proxy.Acceptor.ConnectionManager.Graceful.{finishes, loop_rounds}
use provider_agent_proxy.Acceptor.ConnectionManager.Rounds.{staying}

drop_loop-settings : (n : ℕ) (m : ConnectionManager) → settings (drop_loop n m) ≡ settings m
unfolding drop_loop
drop_loop-settings zero m = refl
drop_loop-settings (suc n) m = elim (List-cases m.conns) [
  | inl is ↦ rw (drop_loop, is) refl
  | inr (c, cs, is) ↦
      ap settings (drop_loop-drops c cs is)
      ∙ drop_loop-settings n (log (fire_drop c ∷ []) (remove_connection c m))
      ∙ remove_connection-settings c m
]
  where
    drop_loop-drops :
        (c : ℕ) (cs : List ℕ)
        → m.conns ≡ c ∷ cs
        → drop_loop (suc n) m ≡ drop_loop n (log (fire_drop c ∷ []) (remove_connection c m))
    drop_loop-drops c cs is = simp (is, drop_loop)

run_loop_callback-fails :
    (closes : ℕ → Bool) (m : ConnectionManager)
    → m.shutdown_state ≡ close_complete
    → run_loop_callback closes m ≡ none
unfolding run_loop_callback drain_round
run_loop_callback-fails closes m h = simp (h, run_loop_callback, drain_round)

-- If a round of a drain is scheduled, then dropConnections leaves it scheduled, and the round fails
-- the CHECK of drainConnections(); while dropAllConnections cancels it.
pub drop_connections-run_loop_callback :
    (closes : ℕ → Bool) (pct : ℕ → ℕ) (m : ConnectionManager)
    → m.loop_scheduled ≡ true
    → ((drop_connections pct m).loop_scheduled ≡ true)
      × (run_loop_callback closes (drop_connections pct m) ≡ none)
      × ((drop_all_connections m).loop_scheduled ≡ false)
unfolding drop_connections stop_draining_for_shutdown drop_all_connections
drop_connections-run_loop_callback closes pct m on =
    let stopped = stop_draining_for_shutdown m in
    let kept = drop_loop-settings (min (length m.conns) (pct (length m.conns))) stopped in
    (
      ap (λ (x : Settings). x.loop_scheduled) kept ∙ on,
      run_loop_callback-fails closes (drop_connections pct m)
          (ap (λ (x : Settings). x.shutdown_state) kept),
      ground arith,
    )

activated-IsClosing :
    (m : ConnectionManager) (done todo : List ℕ) (x c : ℕ)
    → IsClosing m done (x ∷ todo)
    → member c todo ≡ true
    → IsClosing (on_activated c m) (c ∷ done) (x ∷ erase c todo)
unfolding on_activated
activated-IsClosing m done todo x c z is =
    let apart =
      member-right→Differs c (done ++ (x ∷ [])) todo
        (subst NoDup (sym (append_assoc done (x ∷ []) todo)) z.distinct) is in
    let whole : erase c (done ++ (x ∷ todo)) ≡ done ++ (x ∷ erase c todo) =
      ap (erase c) (sym (append_assoc done (x ∷ []) todo))
      ∙ erase-append c (done ++ (x ∷ [])) todo
          (subst NoDup (sym (append_assoc done (x ∷ []) todo)) z.distinct)
      ∙ ap (λ l. l ++ erase c todo) (erase-Differs c (done ++ (x ∷ [])) apart)
      ∙ append_assoc done (x ∷ []) (erase c todo) in
    record {
      conns_are = ap (◌∷◌ c) (ap (erase c) z.conns_are ∙ whole);
      drain_at = z.drain_at;
      distinct = (
        subst (Differs c) whole (erased-Differs c (done ++ (x ∷ todo)) z.distinct),
        subst NoDup whole (NoDup-erase c (done ++ (x ∷ todo)) z.distinct),
      );
      forced = z.forced;
    }

-- Let a round of the drain that tells the connections by force to close be scheduled, with `x` as the next
-- connection to tell, the distinct ones of `todo` after it, and at most 64 of all these for each of
-- 1 + k rounds. If a connection of `todo` becomes busy, then after 1 + k rounds the drain is complete
-- and every other one of them has been told to close, but this one has not, and it is still in the
-- list.
pub activation_skips :
    (closes : ℕ → Bool) (k : ℕ) (m : ConnectionManager) (done todo : List ℕ) (x c : ℕ)
    → IsClosing m done (x ∷ todo)
    → m.loop_scheduled ≡ true
    → length (x ∷ todo) ≤ 64 * suc k
    → member c todo ≡ true
    → (m' : ConnectionManager) × (loop_rounds closes (suc k) (on_activated c m) ≡ some m')
      × (m'.shutdown_state ≡ close_complete)
      × (told m'.calls ≡ told m.calls ++ (x ∷ erase c todo))
      × (member c (x ∷ erase c todo) ≡ false)
      × (member c m'.conns ≡ true)
unfolding on_activated
activation_skips closes k m done todo x c z on enough is =
    let y = activated-IsClosing m done todo x c z is in
    let (m', ran, f) =
      finishes closes k (on_activated c m) (c ∷ done) (x ∷ erase c todo) y on
        (omega (arith, enough, length-erase c todo)) in
    (
      m',
      ran,
      f.state,
      f.tells,
      Differs→member-false c (x ∷ erase c todo)
          (All-right (λ w. (w == c) ≡ false) done (x ∷ erase c todo) y.distinct.0),
      ap (member c) f.conns_are ∙ here (done ++ staying closes (x ∷ erase c todo)),
    )
  where
    here : (cs : List ℕ) → member c (c ∷ cs) ≡ true
    here cs = ground arith
