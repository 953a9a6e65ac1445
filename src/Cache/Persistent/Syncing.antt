-- ===== src/Cache/Persistent/Syncing.antt =====
-- What `syncNow` persists, and what is pending.
use provider_agent_proxy.Common.{
  ℕ, ◌+◌, ◌^◌, ◌≡◌, ◌<◌, ◌↔◌, inl, inr, refl, sym, ◌∙◌, ap, subst, true, false, List, none, some,
  arith, Bool-cases, Option-cases, length, ==_refl,
}
use mathlib.Core.Bool.{true≢false}
use mathlib.Core.Option.{none-ne-some}
use provider_agent_proxy.Cache.Interface.{EvictingCacheMap, PersistenceLayer}
use provider_agent_proxy.Cache.InMemory.{
  LruInMemoryCache, has_changed_since, load_data, convert_pairs, convert_to_key_value_pairs,
  Operation, apply_all,
}
use provider_agent_proxy.Cache.InMemory.Versions.{SameContents, unchanged-SameContents}
use provider_agent_proxy.Cache.Persistent.{
  CachePersistence, persist_versioned_data, sync_now, has_pending_updates, construct,
  set_persistence_helper, load, load_pairs,
}

module _ {K V : Type 0} (m : EvictingCacheMap K V) (layer : PersistenceLayer K V) where
  -- What is to be persisted of a cache, where its pairs can be converted.
  abbrev pub Persists : CachePersistence m layer → LruInMemoryCache m → Type 0
  Persists p cache =
      (p.persisted_version ≡ cache.version)
      × (some (layer.stored p.store) ≡ convert_pairs m layer.to_dynamic (m.pairs cache.cache))

  persist_versioned_data-stored :
      (pairs : List layer.Dynamic) (version : ℕ) (p : CachePersistence m layer)
      → (persist_versioned_data m layer pairs version p).1 ≡ true
      → ((persist_versioned_data m layer pairs version p).0.persisted_version ≡ version)
        × (layer.stored (persist_versioned_data m layer pairs version p).0.store ≡ pairs)
  unfolding persist_versioned_data
  persist_versioned_data-stored pairs version p h =
      elim (Bool-cases (layer.persist pairs p.store).1) [
        | inl e ↦ rw e (refl, layer.persist_stores pairs p.store e)
        | inr e ↦ absurd (ground arith)
      ]

  pub sync_now-converted :
      (p : CachePersistence m layer) (cache : LruInMemoryCache m) (pairs : List layer.Dynamic)
      → has_changed_since m p.persisted_version cache ≡ true
      → convert_pairs m layer.to_dynamic (m.pairs cache.cache) ≡ some pairs
      → sync_now m layer p cache ≡ persist_versioned_data m layer pairs cache.version p
  unfolding sync_now convert_to_key_value_pairs
  sync_now-converted p cache pairs changed e = simp (changed, e)

  pub sync_now-not-converted :
      (p : CachePersistence m layer) (cache : LruInMemoryCache m)
      → has_changed_since m p.persisted_version cache ≡ true
      → convert_pairs m layer.to_dynamic (m.pairs cache.cache) ≡ none
      → sync_now m layer p cache ≡ (p, false)
  unfolding sync_now convert_to_key_value_pairs
  sync_now-not-converted p cache changed e = simp (changed, e)

  pub sync_now-Persists :
      (p : CachePersistence m layer) (cache : LruInMemoryCache m)
      → has_changed_since m p.persisted_version cache ≡ true
      → (sync_now m layer p cache).1 ≡ true
      → Persists (sync_now m layer p cache).0 cache
  sync_now-Persists p cache changed h =
      elim (Option-cases (convert_pairs m layer.to_dynamic (m.pairs cache.cache))) [
        | inl e ↦
            absurd (true≢false (sym h ∙ ap (λ r. r.1) (sync_now-not-converted p cache changed e)))
        | inr (pairs, e) ↦
            let call = sync_now-converted p cache pairs changed e in
            let (version, stored) =
              persist_versioned_data-stored pairs cache.version p (sym (ap (λ r. r.1) call) ∙ h) in
            (
              ap (λ r. r.0.persisted_version) call ∙ version,
              ap (λ r. some (layer.stored r.0.store)) call ∙ ap some stored ∙ sym e,
            )
      ]

  -- Where a sync that had something to do succeeds, its data are the pairs of the cache at that
  -- time; and after any operations on the cache, as long as the version stays below 2 ^ 64, a cache
  -- with no change since the persisted version has under every key what it had at that time.
  pub sync_now-SameContents :
      (p : CachePersistence m layer) (cache : LruInMemoryCache m) (ops : List (Operation m))
      → cache.version + length ops < 2 ^ 64
      → has_changed_since m p.persisted_version cache ≡ true
      → (sync_now m layer p cache).1 ≡ true
      → has_changed_since m (sync_now m layer p cache).0.persisted_version (apply_all m ops cache)
        ≡ false
      → Persists (sync_now m layer p cache).0 cache × SameContents m cache (apply_all m ops cache)
  sync_now-SameContents p cache ops small changed h unchanged =
      let persists = sync_now-Persists p cache changed h in
      (
        persists,
        unchanged-SameContents m ops cache small (
            subst (λ v. has_changed_since m v (apply_all m ops cache) ≡ false) persists.0
              unchanged),
      )

  failed_load_pending :
      (s : m.Store) (n_sync_retries : ℕ) (p : CachePersistence m layer)
      → (layer.load p.store).1 ≡ none
      → has_pending_updates m layer (construct m layer s n_sync_retries (some p)) ≡ true
  unfolding has_pending_updates construct set_persistence_helper load load_pairs load_data
      has_changed_since
  failed_load_pending s n_sync_retries p e = rw (e) refl

  load_not_pending :
      (s : m.Store) (n_sync_retries : ℕ) (p : CachePersistence m layer) (pairs : List layer.Dynamic)
      → (layer.load p.store).1 ≡ some pairs
      → has_pending_updates m layer (construct m layer s n_sync_retries (some p)) ≡ false
  unfolding has_pending_updates construct set_persistence_helper load load_pairs load_data
      has_changed_since
  load_not_pending s n_sync_retries p pairs e = simp (e, ==_refl)

  -- A new cache with a persistence has pending updates if and only if the persistence fails to load.
  pub construct-pending :
      (s : m.Store) (n_sync_retries : ℕ) (p : CachePersistence m layer)
      → (has_pending_updates m layer (construct m layer s n_sync_retries (some p)) ≡ true)
        ↔ ((layer.load p.store).1 ≡ none)
  construct-pending s n_sync_retries p = elim (Option-cases (layer.load p.store).1) [
    | inl e ↦ (λ h. e, λ h. failed_load_pending s n_sync_retries p e)
    | inr (pairs, e) ↦ (
      λ h. absurd (true≢false (sym h ∙ load_not_pending s n_sync_retries p pairs e)),
      λ h. absurd (none-ne-some _ (sym h ∙ e)),
    )
  ]
