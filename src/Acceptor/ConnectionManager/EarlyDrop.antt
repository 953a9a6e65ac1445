-- ===== src/Acceptor/ConnectionManager/EarlyDrop.antt =====
-- The connections that dropIdleConnections() drops.
use mathlib.Core.List.{append_assoc, append-nil}
use provider_agent_proxy.Common.{
  ℕ, zero, suc, ◌≤◌, ◌<◌, ◌⊎◌, arith, ◌≡◌, refl, sym, ap, subst, ◌∙◌, Bool, true, false, List, [],
  ◌∷◌, ◌++◌, none, some, inl, inr, Bool-cases, if◌then◌else◌, length, drop, leb, NoDup,
  NoDup-before, NoDup-after,
}
use provider_agent_proxy.Acceptor.ConnectionManager.{
  ConnectionManager, Call, fire_notify, fire_drop, schedule, cancel, fire_close, on_added,
  on_removed, on_empty, log, erase, next_of, remove_connection,
}
use provider_agent_proxy.Acceptor.ConnectionManager.Dropping.{
  drop_idle_loop, drop_idle_connections, is_recent,
}
use provider_agent_proxy.Acceptor.ConnectionManager.Lists.{
  next_of-middle, erase-Differs, erase-last,
}
use provider_agent_proxy.Acceptor.ConnectionManager.Calls.{see-remove_connection}
use provider_agent_proxy.Acceptor.ConnectionManager.Idle.{IsZoned, removes-IsZoned}

-- The first connections, at most so many, of those that have been idle the longest, up to one that
-- has been idle for too short a time.
abbrev pub early : (ℕ → Bool) → ℕ → List ℕ → List ℕ
early recent zero cs = []
early recent (suc n) [] = []
early recent (suc n) (c ∷ cs) = if recent c then [] else c ∷ early recent n cs

-- The connections that calls drop.
abbrev pub dropped : List Call → List ℕ
dropped [] = []
dropped (fire_drop c ∷ es) = c ∷ dropped es
dropped (fire_notify c ∷ es) = dropped es
dropped (schedule c ∷ es) = dropped es
dropped (cancel c ∷ es) = dropped es
dropped (fire_close c ∷ es) = dropped es
dropped (on_added ∷ es) = dropped es
dropped (on_removed ∷ es) = dropped es
dropped (on_empty ∷ es) = dropped es

dropped-append : (es fs : List Call) → dropped (es ++ fs) ≡ dropped es ++ dropped fs
dropped-append [] fs = refl
dropped-append (fire_drop c ∷ es) fs = ap (◌∷◌ c) (dropped-append es fs)
dropped-append (fire_notify c ∷ es) fs = dropped-append es fs
dropped-append (schedule c ∷ es) fs = dropped-append es fs
dropped-append (cancel c ∷ es) fs = dropped-append es fs
dropped-append (fire_close c ∷ es) fs = dropped-append es fs
dropped-append (on_added ∷ es) fs = dropped-append es fs
dropped-append (on_removed ∷ es) fs = dropped-append es fs
dropped-append (on_empty ∷ es) fs = dropped-append es fs

-- The manager after the drop of a connection of which the loop takes care.
abbrev pub one_dropped : ℕ → ConnectionManager → ConnectionManager
one_dropped c m =
    remove_connection c (log (fire_drop c ∷ []) (record m { idle_iterator = next_of c m.conns }))

one_dropped-keeps :
    (c : ℕ) (m : ConnectionManager)
    → (dropped (one_dropped c m).calls ≡ dropped m.calls ++ (c ∷ []))
      × ((one_dropped c m).idle_threshold ≡ m.idle_threshold)
unfolding remove_connection
one_dropped-keeps c m = (
  see-remove_connection dropped dropped-append (λ d. refl) refl refl refl c
        (log (fire_drop c ∷ []) (record m { idle_iterator = next_of c m.conns }))
      ∙ dropped-append m.calls (fire_drop c ∷ []),
  ground arith,
)

one_dropped-IsZoned :
    (c : ℕ) (m : ConnectionManager) (busy idle : List ℕ)
    → IsZoned m busy (c ∷ idle)
    → IsZoned (one_dropped c m) busy idle
one_dropped-IsZoned c m busy idle z =
    let moved = log (fire_drop c ∷ []) (record m { idle_iterator = next_of c m.conns }) in
    let before = NoDup-before busy idle c z.distinct in
    let zoned : IsZoned moved (busy ++ (c ∷ [])) idle = record {
      conns_are = z.conns_are ∙ sym (append_assoc busy (c ∷ []) idle);
      idle_at = ap (next_of c) z.conns_are ∙ next_of-middle c busy idle before;
      distinct = subst NoDup (sym (append_assoc busy (c ∷ []) idle)) z.distinct;
    } in
    subst (λ l. IsZoned (one_dropped c m) l idle) (erase-last c busy before)
      (subst (IsZoned (one_dropped c m) (erase c (busy ++ (c ∷ []))))
        (erase-Differs c idle (NoDup-after busy idle c z.distinct))
        (removes-IsZoned moved (busy ++ (c ∷ [])) idle zoned c))

-- One round of the loop.
module _ (idle_time : ℕ → ℕ) (n : ℕ) (m : ConnectionManager) where
  pub drop_idle_loop-end : m.idle_iterator ≡ none → drop_idle_loop idle_time (suc n) m ≡ (m, 0)
  unfolding drop_idle_loop
  drop_idle_loop-end h = simp (h, drop_idle_loop)

  pub drop_idle_loop-recent :
      (c : ℕ)
      → m.idle_iterator ≡ some c
      → is_recent m.idle_threshold (idle_time c) ≡ true
      → drop_idle_loop idle_time (suc n) m ≡ (m, 0)
  unfolding drop_idle_loop
  drop_idle_loop-recent c h k = simp (h, k, drop_idle_loop)

  pub drop_idle_loop-drops :
      (c : ℕ)
      → m.idle_iterator ≡ some c
      → is_recent m.idle_threshold (idle_time c) ≡ false
      → drop_idle_loop idle_time (suc n) m ≡ (
        (drop_idle_loop idle_time n (one_dropped c m)).0,
        suc (drop_idle_loop idle_time n (one_dropped c m)).1,
      )
  unfolding drop_idle_loop
  drop_idle_loop-drops c h k = simp (h, k, drop_idle_loop)

-- What the loop drops, and what it leaves.
record Drops (idle_time : ℕ → ℕ) (n : ℕ) (m : ConnectionManager) (busy idle : List ℕ)
    (r : ConnectionManager × ℕ) : Type 0 where
  gone :
      dropped r.0.calls
      ≡ dropped m.calls ++ early (λ c. is_recent m.idle_threshold (idle_time c)) n idle
  counted : r.1 ≡ length (early (λ c. is_recent m.idle_threshold (idle_time c)) n idle)
  left : IsZoned r.0 busy (drop r.1 idle)

-- The loop that ends at once.
ends-Drops :
    (idle_time : ℕ → ℕ) (n : ℕ) (m : ConnectionManager) (busy idle : List ℕ)
    → IsZoned m busy idle
    → early (λ c. is_recent m.idle_threshold (idle_time c)) n idle ≡ []
    → Drops idle_time n m busy idle (m, 0)
ends-Drops idle_time n m busy idle z h = record {
  gone = sym (ap (◌++◌ (dropped m.calls)) h ∙ append-nil (dropped m.calls));
  counted = sym (ap length h);
  left = z;
}

drop_idle_loop-Drops :
    (idle_time : ℕ → ℕ) (n : ℕ) (m : ConnectionManager) (busy idle : List ℕ)
    → IsZoned m busy idle
    → Drops idle_time n m busy idle (drop_idle_loop idle_time n m)
unfolding drop_idle_loop
drop_idle_loop-Drops idle_time zero m busy idle z = ends-Drops idle_time 0 m busy idle z refl
drop_idle_loop-Drops idle_time (suc n) m busy [] z =
    subst (Drops idle_time (suc n) m busy []) (sym (drop_idle_loop-end idle_time n m z.idle_at))
      (ends-Drops idle_time (suc n) m busy [] z refl)
drop_idle_loop-Drops idle_time (suc n) m busy (c ∷ idle) z =
    elim (Bool-cases (is_recent m.idle_threshold (idle_time c))) [
      | inl is ↦
          subst (Drops idle_time (suc n) m busy (c ∷ idle))
            (sym (drop_idle_loop-recent idle_time n m c z.idle_at is))
            (ends-Drops idle_time (suc n) m busy (c ∷ idle) z (rw is refl))
      | inr is ↦
          subst (Drops idle_time (suc n) m busy (c ∷ idle))
            (sym (drop_idle_loop-drops idle_time n m c z.idle_at is))
            (goes_on
              (drop_idle_loop-Drops idle_time n (one_dropped c m) busy idle
                (one_dropped-IsZoned c m busy idle z))
              is)
    ]
  where
    goes_on :
        Drops idle_time n (one_dropped c m) busy idle (drop_idle_loop idle_time n (one_dropped c m))
        → is_recent m.idle_threshold (idle_time c) ≡ false
        → Drops idle_time (suc n) m busy (c ∷ idle) (
          (drop_idle_loop idle_time n (one_dropped c m)).0,
          suc (drop_idle_loop idle_time n (one_dropped c m)).1,
        )
    goes_on d is =
        let (one, same) = one_dropped-keeps c m in
        record {
          gone =
              d.gone
              ∙ ap
                  (λ l.
                    l
                    ++ early (λ e. is_recent (one_dropped c m).idle_threshold (idle_time e)) n idle)
                  one
              ∙ append_assoc (dropped m.calls) (c ∷ [])
                  (early (λ e. is_recent (one_dropped c m).idle_threshold (idle_time e)) n idle)
              ∙ rw (same, is) refl;
          counted =
              ap suc
                (d.counted ∙ ap (λ t. length (early (λ e. is_recent t (idle_time e)) n idle)) same)
              ∙ rw is refl;
          left = d.left;
        }

early-length : (recent : ℕ → Bool) (n : ℕ) (cs : List ℕ) → length (early recent n cs) ≤ n
early-length recent zero cs = omega arith
early-length recent (suc n) [] = omega arith
early-length recent (suc n) (c ∷ cs) = ground (arith, early-length recent n cs)

-- In a manager whose list is one of busy and one of idle connections, separated by idleIterator_, and
-- in which a connection that is dropped leaves: if the threshold is not below the timeout,
-- dropIdleConnections does nothing and returns 0. If it is below, it drops the first of the idle
-- connections, at most as many as it is asked for and up to the first one whose idle time is 0 or not
-- above the threshold; it returns their number; and it leaves the busy ones and the other idle ones.
pub drop_idle_connections-early :
    (idle_time : ℕ → ℕ) (num : ℕ) (m : ConnectionManager) (busy idle : List ℕ)
    → IsZoned m busy idle
    → ((m.timeout ≤ m.idle_threshold) × (drop_idle_connections idle_time num m ≡ (m, 0)))
      ⊎ ((m.idle_threshold < m.timeout)
          × (dropped (drop_idle_connections idle_time num m).0.calls
              ≡ dropped m.calls ++ early (λ c. is_recent m.idle_threshold (idle_time c)) num idle)
          × ((drop_idle_connections idle_time num m).1
              ≡ length (early (λ c. is_recent m.idle_threshold (idle_time c)) num idle))
          × ((drop_idle_connections idle_time num m).1 ≤ num)
          × IsZoned
              (drop_idle_connections idle_time num m).0
              busy
              (drop (drop_idle_connections idle_time num m).1 idle))
unfolding drop_idle_connections
drop_idle_connections-early idle_time num m busy idle z =
    elim (Bool-cases (leb m.timeout m.idle_threshold)) [
      | inl is ↦ inl (ground arith, rw is refl)
      | inr is ↦
          let d = drop_idle_loop-Drops idle_time num m busy idle z in
          inr (
            ground arith,
            rw is d.gone,
            rw is d.counted,
            rw is (
                subst (λ n. n ≤ num) (sym d.counted)
                  (early-length (λ c. is_recent m.idle_threshold (idle_time c)) num idle)),
            rw is d.left,
          )
    ]
