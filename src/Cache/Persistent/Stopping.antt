-- ===== src/Cache/Persistent/Stopping.antt =====
-- The end of the syncer thread, for which the destructor waits.
use provider_agent_proxy.Common.{
  ℕ, zero, suc, ◌+◌, ◌%◌, ◌^◌, ◌<◌, ◌==◌, ◌≡◌, ◌⊎◌, inl, inr, refl, sym, ◌∙◌, subst, Bool, true,
  false, List, [], ◌∷◌, Option, none, some, arith, Bool-cases, Option-cases, ==_refl,
}
use mathlib.Core.Bool.{true≢false}
use provider_agent_proxy.Cache.Persistent.Syncing.{sync_now-Persists}
use provider_agent_proxy.Cache.Interface.{EvictingCacheMap, PersistenceLayer}
use provider_agent_proxy.Cache.InMemory.{LruInMemoryCache, has_changed_since}
use provider_agent_proxy.Cache.Persistent.{
  CachePersistence, LruPersistentCache, sync_now, count_failure, sync_body, has_pending_updates,
  is_done, sync_loop, stop, Event, on_cache, clears_all, sets_persistence, syncs, handle,
  handle_all, construct, set_persistence_helper, set_persistence, clear,
}

module _ {K V : Type 0} (m : EvictingCacheMap K V) (layer : PersistenceLayer K V) where
  -- After a call of `syncNow` the persisted version is that of the cache, or the call has failed.
  sync_now-version :
      (p : CachePersistence m layer) (cache : LruInMemoryCache m)
      → ((sync_now m layer p cache).1 ≡ false)
        ⊎ (has_changed_since m (sync_now m layer p cache).0.persisted_version cache ≡ false)
  unfolding sync_now has_changed_since
  sync_now-version p cache = elim (Bool-cases (sync_now m layer p cache).1) [
    | inr failed ↦ inl failed
    | inl succeeded ↦ inr (elim (Bool-cases (has_changed_since m p.persisted_version cache)) [
      | inl e ↦
          subst (λ v. has_changed_since m v cache ≡ false)
            (sym (sync_now-Persists m layer p cache e succeeded).0)
            (rw (==_refl cache.version) refl)
      | inr e ↦ rw (e, e) refl
    ])
  ]

  -- The persisted version is that of the cache, or there is one more failure, and not yet the last.
  Counted : ℕ → LruInMemoryCache m → ℕ → CachePersistence m layer × ℕ → Type 0
  Counted n_sync_retries cache n_sync_failures (p, n) =
      ((has_changed_since m p.persisted_version cache ≡ false) × (n ≡ 0))
      ⊎ ((n ≡ n_sync_failures + 1) × (n < n_sync_retries))

  count_failure-Counted :
      (n_sync_retries : ℕ) (cache : LruInMemoryCache m) (result : CachePersistence m layer × Bool)
      (n : ℕ)
      → n < n_sync_retries
      → n_sync_retries < 2 ^ 32
      → (result.1 ≡ false) ⊎ (has_changed_since m result.0.persisted_version cache ≡ false)
      → Counted n_sync_retries cache n (count_failure m layer n_sync_retries cache result n)
  unfolding Counted count_failure has_changed_since
  count_failure-Counted n_sync_retries cache (p, true) n small fits (inl h) = absurd (true≢false h)
  count_failure-Counted n_sync_retries cache (p, true) n small fits (inr h) = inl (h, refl)
  count_failure-Counted n_sync_retries cache (p, false) n small fits h =
      let kept : (n + 1) % 2 ^ 32 ≡ n + 1 = omega arith in
      elim (Bool-cases ((n + 1) % 2 ^ 32 == n_sync_retries)) [
        | inl e ↦ rw e (inl (rw (==_refl cache.version) refl, refl))
        | inr e ↦ rw e (inr (kept, ground arith))
      ]

  -- A round changes nothing but the persistence.
  Same : LruPersistentCache m layer → LruPersistentCache m layer → Type 0
  Same c c' =
      (c'.cache ≡ c.cache)
      × (c'.stop_syncer ≡ c.stop_syncer)
      × (c'.n_sync_retries ≡ c.n_sync_retries)

  sync_body-Same : (c : LruPersistentCache m layer) (n : ℕ) → Same c (sync_body m layer c n).0
  unfolding Same sync_body
  sync_body-Same c n = elim (Option-cases c.persistence) [
    | inl e ↦ rw e (refl, refl, refl)
    | inr (p, e) ↦ rw e (refl, refl, refl)
  ]

  -- After a round nothing is pending, or there is one more failure, and not yet the last.
  Round : LruPersistentCache m layer → ℕ → LruPersistentCache m layer × ℕ → Type 0
  Round c n (c', n') =
      ((has_pending_updates m layer c' ≡ false) × (n' ≡ 0))
      ⊎ ((n' ≡ n + 1) × (n' < c.n_sync_retries))

  sync_body-Round :
      (c : LruPersistentCache m layer) (n : ℕ)
      → n < c.n_sync_retries
      → c.n_sync_retries < 2 ^ 32
      → Round c n (sync_body m layer c n)
  unfolding Round Counted sync_body has_pending_updates
  sync_body-Round c n small fits = elim (Option-cases c.persistence) [
    | inl e ↦ rw e (inl (refl, refl))
    | inr (p, e) ↦
        let counted =
          count_failure-Counted c.n_sync_retries c.cache (sync_now m layer p c.cache) n small fits
            (sync_now-version p c.cache) in
        rw (e) counted
  ]

  handle-Below :
      (e : Event m layer) (c : LruPersistentCache m layer) (n : ℕ)
      → n < c.n_sync_retries
      → c.n_sync_retries < 2 ^ 32
      → ((handle m layer e (c, n)).0.n_sync_retries ≡ c.n_sync_retries)
        × ((handle m layer e (c, n)).1 < c.n_sync_retries)
  unfolding handle clear set_persistence set_persistence_helper Same Round
  handle-Below (on_cache op) c n small fits = (refl, small)
  handle-Below (clears_all true) c n small fits = (refl, small)
  handle-Below (clears_all false) c n small fits = (refl, small)
  handle-Below (sets_persistence none) c n small fits = (refl, small)
  handle-Below (sets_persistence (some p)) c n small fits = (refl, small)
  handle-Below syncs c n small fits = (
    (sync_body-Same c n).2,
    elim (sync_body-Round c n small fits) [ inl (_, z) ↦ omega arith | inr (_, less) ↦ less ],
  )

  handle_all-Below :
      (events : List (Event m layer)) (c : LruPersistentCache m layer) (n : ℕ)
      → n < c.n_sync_retries
      → c.n_sync_retries < 2 ^ 32
      → ((handle_all m layer events (c, n)).0.n_sync_retries ≡ c.n_sync_retries)
        × ((handle_all m layer events (c, n)).1 < c.n_sync_retries)
  unfolding handle_all
  handle_all-Below [] c n small fits = (refl, small)
  handle_all-Below (e ∷ events) c n small fits =
      let (same, less) = handle-Below e c n small fits in
      let s = handle m layer e (c, n) in
      let (same', less') = handle_all-Below events s.0 s.1 (omega arith) (omega arith) in
      (same' ∙ same, omega arith)

  -- The loop ends with a cache that has nothing pending, and the same contents in memory.
  abbrev pub Ends : ℕ → LruPersistentCache m layer → ℕ → Type 0
  Ends fuel c n =
      (c' : LruPersistentCache m layer) × (sync_loop m layer fuel c n ≡ some c')
      × (has_pending_updates m layer c' ≡ false)
      × (c'.cache ≡ c.cache)

  done_pending :
      (c : LruPersistentCache m layer)
      → is_done m layer c ≡ true
      → has_pending_updates m layer c ≡ false
  unfolding is_done
  done_pending c h = ground arith

  not_pending_done :
      (c : LruPersistentCache m layer)
      → c.stop_syncer ≡ true
      → has_pending_updates m layer c ≡ false
      → is_done m layer c ≡ true
  unfolding is_done
  not_pending_done c stopped h = rw (stopped, h) refl

  sync_loop-done :
      (fuel : ℕ) (c : LruPersistentCache m layer) (n : ℕ)
      → 0 < fuel
      → is_done m layer c ≡ true
      → sync_loop m layer fuel c n ≡ some c
  unfolding sync_loop
  sync_loop-done zero c n positive e = absurd (omega arith)
  sync_loop-done (suc fuel) c n positive e = rw e refl

  sync_loop-Ends :
      (fuel : ℕ) (c : LruPersistentCache m layer) (n : ℕ)
      → c.stop_syncer ≡ true
      → n < c.n_sync_retries
      → c.n_sync_retries < 2 ^ 32
      → c.n_sync_retries < fuel + n
      → Ends fuel c n
  unfolding sync_loop Round Same
  sync_loop-Ends zero c n stopped small fits enough = absurd (omega arith)
  sync_loop-Ends (suc fuel) c n stopped small fits enough = elim (Bool-cases (is_done m layer c)) [
    | inl e ↦ (c, rw e refl, done_pending c e, refl)
    | inr e ↦
        let (kept, stop, retries) = sync_body-Same c n in
        let s = sync_body m layer c n in
        elim (sync_body-Round c n small fits) [
          | inl (quiet, z) ↦ (
            s.0,
            rw e (
                sync_loop-done fuel s.0 s.1 (omega arith)
                  (not_pending_done s.0 (stop ∙ stopped) quiet)),
            quiet,
            kept,
          )
          | inr (next, less) ↦
              let (c', ends, quiet, same) =
                sync_loop-Ends fuel s.0 s.1 (stop ∙ stopped) (omega arith) (omega arith)
                  (omega arith) in
              (c', rw e ends, quiet, same ∙ kept)
        ]
  ]

  construct-retries :
      (s : m.Store) (n_sync_retries : ℕ) (persistence : Option (CachePersistence m layer))
      → (construct m layer s n_sync_retries persistence).n_sync_retries ≡ n_sync_retries
  unfolding construct set_persistence_helper
  construct-retries s n_sync_retries none = refl
  construct-retries s n_sync_retries (some p) = refl

  -- A cache with at least one attempt to sync, a number that an `int` holds, on which any operations
  -- and rounds of the syncer have followed in any order: after the destructor has stopped the syncer, its loop ends within one
  -- round more than there are attempts, whether the persistence stores or fails, with nothing
  -- pending and with the cache in memory as it was.
  pub destructor-Ends :
      (events : List (Event m layer)) (s : m.Store) (n_sync_retries : ℕ)
      → (persistence : Option (CachePersistence m layer)) → 0 < n_sync_retries
      → n_sync_retries < 2 ^ 31
      → let end = handle_all m layer events (construct m layer s n_sync_retries persistence, 0) in
        Ends (n_sync_retries + 1) (stop m layer end.0) end.1
  destructor-Ends events s n_sync_retries persistence positive fits =
      let start = construct m layer s n_sync_retries persistence in
      let retries = construct-retries s n_sync_retries persistence in
      let end = handle_all m layer events (start, 0) in
      let (same, less) = handle_all-Below events start 0 (omega arith) (omega arith) in
      sync_loop-Ends (n_sync_retries + 1) (stop m layer end.0) end.1 refl (omega arith)
        (omega arith) (omega arith)
