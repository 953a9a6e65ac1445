-- ===== src/Acceptor/ConnectionManager/Graceful.antt =====
-- A graceful shutdown, through the rounds of the event loop.
use mathlib.Core.List.{append_assoc}
use provider_agent_proxy.Common.{
  ℕ, zero, suc, ◌*◌, ◌≤◌, arith, ◌≡◌, refl, sym, ap, ◌∙◌, ◌⊎◌, Bool, true, false, not, List, [],
  ◌++◌, Option, none, some, inl, inr, head, length, length-drop, take, drop, take-append-drop,
  select-append, NoDup,
}
use provider_agent_proxy.Acceptor.ConnectionManager.{
  ConnectionManager, not_shut, close_when_idle, close_complete, get_shutdown_state,
}
use provider_agent_proxy.Acceptor.ConnectionManager.Draining.{
  drain_round, run_loop_callback, drain_start_iterator, start_drain, start_drain_all,
  initiate_graceful_shutdown,
}
use provider_agent_proxy.Acceptor.ConnectionManager.Visits.{told}
use provider_agent_proxy.Acceptor.ConnectionManager.Rounds.{staying}
use provider_agent_proxy.Acceptor.ConnectionManager.ClosingRound.{
  IsClosing, Finished, Continues, round,
}

-- The rounds of the event loop in which only the drain runs.
unfoldable pub loop_rounds : (ℕ → Bool) → ℕ → ConnectionManager → Option ConnectionManager
unfolding run_loop_callback
loop_rounds closes zero m = some m
loop_rounds closes (suc k) m = elim m.loop_scheduled [
  | false ↦ some m
  | true ↦ elim (run_loop_callback closes m) [ none ↦ none | some m' ↦ loop_rounds closes k m' ]
]

-- The manager whose drain of all connections begins, without a grace period.
abbrev started : ConnectionManager → ConnectionManager
started m = record m {
  all = true;
  pct = λ n. n;
  grace_scheduled = false;
  shutdown_state = close_when_idle;
  notify_pending_shutdown = false;
  drain_iterator = head m.conns;
}

module _ (closes : ℕ → Bool) where
  -- The first round of the event loop, and the end of the rounds.
  loop_rounds-step :
      (k : ℕ) (m m' : ConnectionManager)
      → m.loop_scheduled ≡ true
      → drain_round closes (record m { loop_scheduled = false }) ≡ some m'
      → loop_rounds closes (suc k) m ≡ loop_rounds closes k m'
  unfolding loop_rounds run_loop_callback
  loop_rounds-step k m m' h r = simp (h, r, loop_rounds, run_loop_callback)

  loop_rounds-over :
      (k : ℕ) (m : ConnectionManager) → m.loop_scheduled ≡ false → loop_rounds closes k m ≡ some m
  unfolding loop_rounds
  loop_rounds-over zero m h = refl
  loop_rounds-over (suc k) m h = simp (h, loop_rounds)

  staying-parts :
      (done todo : List ℕ)
      → (done ++ staying closes (take 64 todo)) ++ staying closes (drop 64 todo)
        ≡ done ++ staying closes todo
  staying-parts done todo =
      append_assoc done (staying closes (take 64 todo)) (staying closes (drop 64 todo))
      ∙ ap (◌++◌ done) (
          sym (select-append (λ c. not (closes c)) (take 64 todo) (drop 64 todo))
          ∙ ap (staying closes) (take-append-drop 64 todo))

  -- What a round and the rounds after it do together.
  both :
      (m m₁ m' : ConnectionManager) (done todo : List ℕ)
      → Continues closes m done todo m₁
      → Finished closes m₁ (done ++ staying closes (take 64 todo)) (drop 64 todo) m'
      → Finished closes m done todo m'
  both m m₁ m' done todo c f = record {
    state = f.state;
    loop = f.loop;
    conns_are = f.conns_are ∙ staying-parts done todo;
    tells =
        f.tells
        ∙ ap (λ l. l ++ drop 64 todo) c.tells
        ∙ append_assoc (told m.calls) (take 64 todo) (drop 64 todo)
        ∙ ap (◌++◌ (told m.calls)) (take-append-drop 64 todo);
  }

  unscheduled :
      (m : ConnectionManager) (done todo : List ℕ)
      → IsClosing m done todo
      → IsClosing (record m { loop_scheduled = false }) done todo
  unscheduled m done todo z = record {
    conns_are = z.conns_are;
    drain_at = z.drain_at;
    distinct = z.distinct;
    forced = z.forced;
  }

  scheduled-Finished :
      (m : ConnectionManager) (done todo : List ℕ) (m' : ConnectionManager)
      → Finished closes (record m { loop_scheduled = false }) done todo m'
      → Finished closes m done todo m'
  scheduled-Finished m done todo m' f = record {
    state = f.state;
    loop = f.loop;
    conns_are = f.conns_are;
    tells = f.tells;
  }

  -- From a scheduled round, enough rounds finish.
  abbrev Finishes : ℕ → ConnectionManager → List ℕ → List ℕ → Type 0
  Finishes k m done todo =
      (m' : ConnectionManager) × (loop_rounds closes k m ≡ some m') × Finished closes m done todo m'

  Finishes-now :
      (k : ℕ) (m : ConnectionManager) (done todo : List ℕ) (m₁ : ConnectionManager)
      → m.loop_scheduled ≡ true
      → drain_round closes (record m { loop_scheduled = false }) ≡ some m₁
      → Finished closes (record m { loop_scheduled = false }) done todo m₁
      → Finishes (suc k) m done todo
  Finishes-now k m done todo m₁ on ran f = (
    m₁,
    loop_rounds-step k m m₁ on ran ∙ loop_rounds-over k m₁ f.loop,
    scheduled-Finished m done todo m₁ f,
  )

  pub finishes :
      (k : ℕ) (m : ConnectionManager) (done todo : List ℕ)
      → IsClosing m done todo
      → m.loop_scheduled ≡ true
      → length todo ≤ 64 * suc k
      → Finishes (suc k) m done todo
  finishes zero m done todo z on enough =
      let quiet = record m { loop_scheduled = false } in
      let (m₁, ran, how) = round closes quiet done todo (unscheduled m done todo z) refl in
      elim how [
        | inl (_, f) ↦ Finishes-now 0 m done todo m₁ on ran f
        | inr c ↦ absurd (omega (arith, c.more))
      ]
  finishes (suc k) m done todo z on enough =
      let quiet = record m { loop_scheduled = false } in
      let (m₁, ran, how) = round closes quiet done todo (unscheduled m done todo z) refl in
      elim how [
        | inl (_, f) ↦ Finishes-now (suc k) m done todo m₁ on ran f
        | inr c ↦
            let (m', rest, f) =
              finishes k m₁ (done ++ staying closes (take 64 todo)) (drop 64 todo) c.closing c.loop
                (omega (arith, length-drop 64 todo)) in
            (
              m',
              loop_rounds-step (suc k) m m₁ on ran ∙ rest,
              scheduled-Finished m done todo m' (both quiet m₁ m' done todo c f),
            )
      ]

  -- What follows a first round.
  rounds_after :
      (k : ℕ) (m m₁ : ConnectionManager) (done todo : List ℕ)
      → (drop 64 todo ≡ []) × Finished closes m done todo m₁ ⊎ Continues closes m done todo m₁
      → length todo ≤ 64 * suc k
      → (m' : ConnectionManager) × (loop_rounds closes k m₁ ≡ some m')
        × Finished closes m done todo m'
  rounds_after k m m₁ done todo (inl (_, f)) enough = (m₁, loop_rounds-over k m₁ f.loop, f)
  rounds_after zero m m₁ done todo (inr c) enough = absurd (omega (arith, c.more))
  rounds_after (suc k) m m₁ done todo (inr c) enough =
      let (m', rest, f) =
        finishes k m₁ (done ++ staying closes (take 64 todo)) (drop 64 todo) c.closing c.loop
          (omega (arith, length-drop 64 todo)) in
      (m', rest, both m m₁ m' done todo c f)

  initiate-starts :
      (m : ConnectionManager)
      → get_shutdown_state m ≡ not_shut
      → initiate_graceful_shutdown closes 0 m ≡ drain_round closes (started m)
  unfolding initiate_graceful_shutdown start_drain_all start_drain drain_start_iterator
  initiate-starts m h = simp (h, initiate_graceful_shutdown)

-- A manager without a full shutdown and without a scheduled round, whose connections are distinct and
-- not more than 64 for each of 1 + k rounds: initiateGracefulShutdown without a grace period does its
-- first round at once and returns; k rounds of the event loop then end the drain. Every connection
-- has been told to close once, in the order of the list, those that do not leave at once are still in
-- the list, in their order, and no round is scheduled any more.
pub initiate-tells_all :
    (closes : ℕ → Bool) (k : ℕ) (m : ConnectionManager)
    → get_shutdown_state m ≡ not_shut
    → m.loop_scheduled ≡ false
    → NoDup m.conns
    → length m.conns ≤ 64 * suc k
    → (m₁ : ConnectionManager) × (m' : ConnectionManager) × (initiate_graceful_shutdown closes 0 m
        ≡ some m₁)
      × (loop_rounds closes k m₁ ≡ some m')
      × (m'.shutdown_state ≡ close_complete)
      × (m'.loop_scheduled ≡ false)
      × (m'.conns ≡ staying closes m.conns)
      × (told m'.calls ≡ told m.calls ++ m.conns)
initiate-tells_all closes k m none_yet quiet distinct enough =
    let (m₁, ran, how) = round closes (started m) [] m.conns begun quiet in
    let (m', rest, f) = rounds_after closes k (started m) m₁ [] m.conns how enough in
    (m₁, m', initiate-starts closes m none_yet ∙ ran, rest, f.state, f.loop, f.conns_are, f.tells)
  where
    begun : IsClosing (started m) [] m.conns
    begun = record { conns_are = refl; drain_at = refl; distinct = distinct; forced = (refl, refl) }
