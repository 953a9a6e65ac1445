-- ===== src/Acceptor/ConnectionManager/ClosingRound.antt =====
-- A round of a drain that tells the connections by force to close.
use mathlib.Core.List.{append-nil}
use provider_agent_proxy.Common.{
  ℕ, ◌<◌, arith, ◌≡◌, refl, sym, ap, ◌∙◌, ◌⊎◌, Bool, true, false, List, [], ◌++◌, Option, none,
  some, inl, inr, List-cases, head, length, length-drop, take, drop, take-append-drop, NoDup,
}
use provider_agent_proxy.Acceptor.ConnectionManager.{
  ConnectionManager, close_when_idle, close_complete,
}
use provider_agent_proxy.Acceptor.ConnectionManager.Draining.{
  drain_loop, drain_round, after_loop, drained,
}
use provider_agent_proxy.Acceptor.ConnectionManager.Visits.{
  told, Forced, Settings, drain_loop-settings,
}
use provider_agent_proxy.Acceptor.ConnectionManager.Rounds.{staying, drain_loop-Looped}

-- The connections of `done` have been told to close, and those of `todo` have not.
pub record IsClosing (m : ConnectionManager) (done todo : List ℕ) : Type 0 where
  pub conns_are : m.conns ≡ done ++ todo
  pub drain_at : m.drain_iterator ≡ head todo
  pub distinct : NoDup (done ++ todo)
  pub forced : Forced m

module _ (r : ConnectionManager × Option ℕ) where
  after_loop-stops : r.1 ≡ none → after_loop r ≡ drained (record r.0 { drain_iterator = none })
  unfolding after_loop
  after_loop-stops h = simp (h, after_loop)

  after_loop-goes_on :
      (c : ℕ)
      → r.1 ≡ some c
      → after_loop r ≡ record r.0 { drain_iterator = some c; loop_scheduled = true }
  unfolding after_loop
  after_loop-goes_on c h = simp (h, after_loop)

drained-closing :
    (m : ConnectionManager)
    → m.shutdown_state ≡ close_when_idle
    → drained m ≡ record m { shutdown_state = close_complete }
unfolding drained
drained-closing m h = simp (h, drained)

-- After the round in which the last connection is told, and after one that has to be followed.
pub record Finished (closes : ℕ → Bool) (m : ConnectionManager) (done todo : List ℕ)
    (m' : ConnectionManager) : Type 0 where
  pub state : m'.shutdown_state ≡ close_complete
  pub loop : m'.loop_scheduled ≡ false
  pub conns_are : m'.conns ≡ done ++ staying closes todo
  pub tells : told m'.calls ≡ told m.calls ++ todo

pub record Continues (closes : ℕ → Bool) (m : ConnectionManager) (done todo : List ℕ)
    (m' : ConnectionManager) : Type 0 where
  pub closing : IsClosing m' (done ++ staying closes (take 64 todo)) (drop 64 todo)
  pub loop : m'.loop_scheduled ≡ true
  pub tells : told m'.calls ≡ told m.calls ++ take 64 todo
  pub more : 64 < length todo

module _ (closes : ℕ → Bool) where
  drain_round-runs :
      (m : ConnectionManager) (it : Option ℕ)
      → m.shutdown_state ≡ close_when_idle
      → m.drain_iterator ≡ it
      → drain_round closes m ≡ some (after_loop (drain_loop closes 64 it m))
  unfolding drain_round
  drain_round-runs m it h k = simp (h, k, drain_round)

  pub round :
      (m : ConnectionManager) (done todo : List ℕ)
      → IsClosing m done todo
      → m.loop_scheduled ≡ false
      → (m' : ConnectionManager) × (drain_round closes m ≡ some m')
        × ((drop 64 todo ≡ []) × Finished closes m done todo m' ⊎ Continues closes m done todo m')
  unfolding drain_round
  round m done todo z quiet =
      let r = drain_loop closes 64 (head todo) m in
      let d = drain_loop-Looped closes 64 done todo m z.forced z.conns_are z.distinct in
      let kept = drain_loop-settings closes 64 (head todo) m in
      let state = ap (λ (x : Settings). x.shutdown_state) kept ∙ z.forced.0 in
      let unscheduled = ap (λ (x : Settings). x.loop_scheduled) kept ∙ quiet in
      let ran = drain_round-runs m (head todo) z.forced.0 z.drain_at in
      elim (List-cases (drop 64 todo)) [
        | inl over ↦
            let all_of =
              sym (append-nil (take 64 todo))
              ∙ ap (◌++◌ (take 64 todo)) (sym over)
              ∙ take-append-drop 64 todo in
            (
              record r.0 { drain_iterator = none; shutdown_state = close_complete },
              ran
                  ∙ ap some (
                      after_loop-stops r (d.stops ∙ ap head over)
                      ∙ drained-closing (record r.0 { drain_iterator = none }) state),
              inl (
                over,
                record {
                  state = refl;
                  loop = unscheduled;
                  conns_are =
                      d.lists
                      ∙ ap (λ l. (done ++ staying closes (take 64 todo)) ++ l) over
                      ∙ append-nil (done ++ staying closes (take 64 todo))
                      ∙ ap (λ l. done ++ staying closes l) all_of;
                  tells = d.tells ∙ ap (◌++◌ (told m.calls)) all_of;
                },
              ),
            )
        | inr (c, cs, more) ↦ (
          record r.0 { drain_iterator = some c; loop_scheduled = true },
          ran ∙ ap some (after_loop-goes_on r c (d.stops ∙ ap head more)),
          inr (record {
            closing = record {
              conns_are = d.lists;
              drain_at = sym (ap head more);
              distinct = d.distinct;
              forced = (state, ap (λ (x : Settings). x.notify_pending_shutdown) kept ∙ z.forced.1);
            };
            loop = refl;
            tells = d.tells;
            more = omega (arith, length-drop 64 todo, ap length more);
          }),
        )
      ]
