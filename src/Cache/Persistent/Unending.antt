-- ===== src/Cache/Persistent/Unending.antt =====
-- The syncer thread of a cache whose number of attempts is 0.
use provider_agent_proxy.Common.{
  ℕ, zero, suc, ◌+◌, ◌%◌, ◌^◌, ◌<◌, ◌==◌, ◌≡◌, inl, inr, refl, sym, ◌∙◌, ap, Bool, true, false,
  List, none, some, arith, Option-cases,
}
use mathlib.Core.Bool.{true≢false}
use provider_agent_proxy.Cache.Interface.{EvictingCacheMap, PersistenceLayer}
use provider_agent_proxy.Cache.InMemory.{LruInMemoryCache, has_changed_since, convert_pairs}
use provider_agent_proxy.Cache.Persistent.Syncing.{sync_now-converted, sync_now-not-converted}
use provider_agent_proxy.Cache.Persistent.{
  CachePersistence, LruPersistentCache, persist_versioned_data, sync_now, count_failure, sync_body,
  has_pending_updates, is_done, sync_loop, stop,
}

module _ {K V : Type 0} (m : EvictingCacheMap K V) (layer : PersistenceLayer K V) where
  -- Every call of `persist` fails.
  abbrev pub Fails : Type 0
  Fails = (pairs : List layer.Dynamic) (s : layer.Store) → (layer.persist pairs s).1 ≡ false

  -- A failure that leaves the persisted version as it was.
  Failed : CachePersistence m layer → CachePersistence m layer × Bool → Type 0
  Failed p (p', result) = (result ≡ false) × (p'.persisted_version ≡ p.persisted_version)

  persist_versioned_data-Failed :
      (pairs : List layer.Dynamic) (version : ℕ) (p : CachePersistence m layer)
      → Fails
      → Failed p (persist_versioned_data m layer pairs version p)
  unfolding Failed persist_versioned_data
  persist_versioned_data-Failed pairs version p fails = rw (fails pairs p.store) (refl, refl)

  sync_now-Failed :
      (p : CachePersistence m layer) (cache : LruInMemoryCache m)
      → Fails
      → has_changed_since m p.persisted_version cache ≡ true
      → Failed p (sync_now m layer p cache)
  unfolding Failed
  sync_now-Failed p cache fails changed =
      elim (Option-cases (convert_pairs m layer.to_dynamic (m.pairs cache.cache))) [
        | inl e ↦ rw (sync_now-not-converted m layer p cache changed e) (refl, refl)
        | inr (pairs, e) ↦
            rw (sync_now-converted m layer p cache pairs changed e)
              (persist_versioned_data-Failed pairs cache.version p fails)
      ]

  count_below : (n : ℕ) → n + 1 < 2 ^ 32 → (n + 1) % 2 ^ 32 ≡ n + 1
  count_below n h = omega arith

  suc-not-zero : (n : ℕ) → (n + 1 == 0) ≡ false
  suc-not-zero n = ground arith

  count_failure-zero :
      (cache : LruInMemoryCache m) (result : CachePersistence m layer × Bool) (n : ℕ)
      → result.1 ≡ false
      → n + 1 < 2 ^ 32
      → count_failure m layer 0 cache result n ≡ (result.0, n + 1)
  unfolding count_failure
  count_failure-zero cache (p, true) n h small = absurd (true≢false h)
  count_failure-zero cache (p, false) n h small = rw (count_below n small, suc-not-zero n) refl

  -- The cache has changed since the version that its persistence has, and no failure is the last.
  Stuck : LruPersistentCache m layer → Type 0
  Stuck c =
      (p : CachePersistence m layer) × (c.persistence ≡ some p)
      × (has_changed_since m p.persisted_version c.cache ≡ true)
      × (c.n_sync_retries ≡ 0)

  sync_body-Stuck :
      (c : LruPersistentCache m layer) (n : ℕ)
      → Fails
      → Stuck c
      → n + 1 < 2 ^ 32
      → Stuck (sync_body m layer c n).0 × ((sync_body m layer c n).1 ≡ n + 1)
  unfolding Stuck sync_body Failed
  sync_body-Stuck c n fails (p, e, changed, retries) small =
      let (failed, version) = sync_now-Failed p c.cache fails changed in
      let counted = count_failure-zero c.cache (sync_now m layer p c.cache) n failed small in
      rw (e, retries)
        (
          ((sync_now m layer p c.cache).0, ap (λ r. some r.0) counted, rw version changed, refl),
          ap (λ r. r.1) counted,
        )

  pending_not_done :
      (c : LruPersistentCache m layer)
      → has_pending_updates m layer c ≡ true
      → is_done m layer c ≡ false
  unfolding is_done
  pending_not_done c h = ground arith

  Stuck-pending : (c : LruPersistentCache m layer) → Stuck c → has_pending_updates m layer c ≡ true
  unfolding Stuck has_pending_updates
  Stuck-pending c (p, e, changed, retries) = rw e changed

  sync_loop-Stuck :
      (fuel : ℕ) (c : LruPersistentCache m layer) (n : ℕ)
      → Fails
      → Stuck c
      → n + fuel < 2 ^ 32
      → sync_loop m layer fuel c n ≡ none
  unfolding sync_loop
  sync_loop-Stuck zero c n fails stuck small = refl
  sync_loop-Stuck (suc fuel) c n fails stuck small =
      let (still, next) = sync_body-Stuck c n fails stuck (omega arith) in
      rw (pending_not_done c (Stuck-pending c stuck)) (
        sync_loop-Stuck fuel (sync_body m layer c n).0 (sync_body m layer c n).1 fails still
          (omega arith))

  none_not_pending :
      (c : LruPersistentCache m layer)
      → c.persistence ≡ none
      → has_pending_updates m layer c ≡ false
  unfolding has_pending_updates
  none_not_pending c e = rw e refl

  some_pending :
      (c : LruPersistentCache m layer) (p : CachePersistence m layer)
      → c.persistence ≡ some p
      → has_pending_updates m layer c ≡ has_changed_since m p.persisted_version c.cache
  unfolding has_pending_updates
  some_pending c p e = rw e refl

  pending-Stuck :
      (c : LruPersistentCache m layer)
      → c.n_sync_retries ≡ 0
      → has_pending_updates m layer c ≡ true
      → Stuck (stop m layer c)
  unfolding Stuck
  pending-Stuck c retries pending = elim (Option-cases c.persistence) [
    | inl e ↦ absurd (true≢false (sym pending ∙ none_not_pending c e))
    | inr (p, e) ↦ (p, e, sym (some_pending c p e) ∙ pending, retries)
  ]

  -- With 0 attempts, where the persistence always fails and updates are pending, the loop of the
  -- syncer does not give up: after the destructor has stopped it, it does not end in any number of
  -- rounds with which the count of failures stays below 2 ^ 31, in the range of an `int`.
  pub no_attempts_go_on :
      (c : LruPersistentCache m layer) (n fuel : ℕ)
      → Fails
      → c.n_sync_retries ≡ 0
      → has_pending_updates m layer c ≡ true
      → n + fuel < 2 ^ 31
      → sync_loop m layer fuel (stop m layer c) n ≡ none
  no_attempts_go_on c n fuel fails retries pending small =
      sync_loop-Stuck fuel (stop m layer c) n fails (pending-Stuck c retries pending) (omega arith)
