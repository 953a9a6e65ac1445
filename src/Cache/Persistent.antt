-- ===== src/Cache/Persistent.antt =====
-- wangle/client/persistence/LRUPersistentCache.h and LRUPersistentCache-inl.h: the cache in memory
-- before a persistence layer. `sync_body` is what the syncer thread does between two waits; the
-- locks and the shared pointer are left out, and other threads act between two rounds.
pub mod Syncing
pub mod Stopping
pub mod Unending
use provider_agent_proxy.Common.{
  ℕ, zero, suc, ◌+◌, ◌%◌, ◌^◌, ◌==◌, ◌≡◌, Bool, true, false, not, ◌&&◌, List, [], ◌∷◌, Option, none,
  some, map, if◌then◌else◌,
}
use mathlib.Core.Option
use provider_agent_proxy.Cache.Interface.{EvictingCacheMap, PersistenceLayer}
use provider_agent_proxy.Cache.InMemory.{
  LruInMemoryCache, new_cache, has_changed_since, load_data, convert_to_key_value_pairs, Operation,
  clears, apply,
}

module _ {K V : Type 0} (m : EvictingCacheMap K V) (layer : PersistenceLayer K V) where
  pub record CachePersistence : Type 0 where
    pub store : layer.Store
    pub persisted_version : ℕ

  abbrev pub new_persistence : layer.Store → CachePersistence
  new_persistence s = record { store = s; persisted_version = 0 }

  abbrev pub set_persisted_version : ℕ → CachePersistence → CachePersistence
  set_persisted_version version p = record p { persisted_version = version }

  abbrev clear_persistence : CachePersistence → CachePersistence
  clear_persistence p = record p { store = layer.clear p.store }

  unfoldable pub persist_versioned_data :
      List layer.Dynamic → ℕ → CachePersistence → CachePersistence × Bool
  persist_versioned_data pairs version p =
      let (s, result) = layer.persist pairs p.store in
      if result
      then (record { store = s; persisted_version = version }, true)
      else (record p { store = s }, false)

  pub record LruPersistentCache : Type 0 where
    pub cache : LruInMemoryCache m
    pub stop_syncer : Bool
    pub n_sync_retries : ℕ
    pub persistence : Option CachePersistence

  unfoldable pub has_pending_updates : LruPersistentCache → Bool
  unfolding has_changed_since
  has_pending_updates c = elim c.persistence [
    | none ↦ false
    | some p ↦ has_changed_since m p.persisted_version c.cache
  ]

  -- What `load` does with the pairs that the persistence has loaded.
  unfoldable pub load_pairs :
      Option (List layer.Dynamic)
      → CachePersistence
      → LruInMemoryCache m
      → CachePersistence × LruInMemoryCache m × ℕ
  unfolding load_data
  load_pairs none p cache = (p, cache, 0)
  load_pairs (some pairs) p cache =
      let (cache', version) = load_data m (map layer.from_dynamic pairs) cache in
      (p, cache', version)

  unfoldable pub load :
      CachePersistence → LruInMemoryCache m → CachePersistence × LruInMemoryCache m × ℕ
  unfolding load_pairs
  load p cache =
      let (s, pairs) = layer.load p.store in load_pairs pairs (record p { store = s }) cache

  unfoldable pub set_persistence_helper :
      Option CachePersistence → Bool → LruPersistentCache → LruPersistentCache
  unfolding load
  set_persistence_helper none sync_version c = record c { persistence = none }
  set_persistence_helper (some p) sync_version c =
      let (p', cache, version) = load p c.cache in
      record c {
        cache = cache;
        persistence = some (if sync_version then set_persisted_version version p' else p');
      }

  unfoldable pub set_persistence : Option CachePersistence → LruPersistentCache → LruPersistentCache
  unfolding set_persistence_helper
  set_persistence persistence c = set_persistence_helper persistence false c

  -- A new cache on a new map of the given capacity, before the constructor's body.
  abbrev pub empty_cache : m.Store → ℕ → LruPersistentCache
  empty_cache s n_sync_retries = record {
    cache = new_cache m s;
    stop_syncer = false;
    n_sync_retries = n_sync_retries;
    persistence = none;
  }

  -- The constructor, but for the start of the thread.
  unfoldable pub construct : m.Store → ℕ → Option CachePersistence → LruPersistentCache
  unfolding set_persistence_helper
  construct s n_sync_retries none = empty_cache s n_sync_retries
  construct s n_sync_retries (some p) =
      set_persistence_helper (some p) true (empty_cache s n_sync_retries)

  unfoldable pub clear : Bool → LruPersistentCache → LruPersistentCache
  unfolding apply
  clear also_persistence c =
      let c' = record c { cache = apply m clears c.cache } in
      if also_persistence
      then record c' { persistence = Option.map clear_persistence c.persistence }
      else c'

  unfoldable pub sync_now : CachePersistence → LruInMemoryCache m → CachePersistence × Bool
  unfolding has_changed_since convert_to_key_value_pairs persist_versioned_data
  sync_now p cache =
      if has_changed_since m p.persisted_version cache
      then elim (convert_to_key_value_pairs m layer.to_dynamic cache) [
        | none ↦ (p, false)
        | some (pairs, version) ↦ persist_versioned_data pairs version p
      ]
      else (p, true)

  -- What `sync` does with the result of `syncNow`, at its count of failures. The count and the number
  -- of attempts, which are `int`s, stand for their residues modulo 2 ^ 32.
  unfoldable pub count_failure :
      ℕ → LruInMemoryCache m → CachePersistence × Bool → ℕ → CachePersistence × ℕ
  count_failure n_sync_retries cache (p, true) n_sync_failures = (p, 0)
  count_failure n_sync_retries cache (p, false) n_sync_failures =
      let counted = (n_sync_failures + 1) % 2 ^ 32 in
      if counted == n_sync_retries then (set_persisted_version cache.version p, 0) else (p, counted)

  -- One round of the loop of `sync`, from the test of the persistence to the wait.
  unfoldable pub sync_body : LruPersistentCache → ℕ → LruPersistentCache × ℕ
  unfolding count_failure sync_now
  sync_body c n_sync_failures = elim c.persistence [
    | none ↦ (c, 0)
    | some p ↦
        let (p', n) = count_failure c.n_sync_retries c.cache (sync_now p c.cache) n_sync_failures in
        (record c { persistence = some p' }, n)
  ]

  -- The test at the top of the loop of `sync`, with which it ends.
  unfoldable pub is_done : LruPersistentCache → Bool
  unfolding has_pending_updates
  is_done c = c.stop_syncer && not (has_pending_updates c)

  -- The loop of `sync` after the destructor has stopped the thread, where it no longer waits, with
  -- the number of rounds that it may take. The count of
  -- failures is an `int`.
  unfoldable pub sync_loop : ℕ → LruPersistentCache → ℕ → Option LruPersistentCache
  unfolding is_done sync_body
  sync_loop zero c n_sync_failures = none
  sync_loop (suc fuel) c n_sync_failures =
      let (c', n) = sync_body c n_sync_failures in
      let rest = sync_loop fuel c' n in if is_done c then some c else rest

  -- What the destructor does before it waits for the thread.
  abbrev pub stop : LruPersistentCache → LruPersistentCache
  stop c = record c { stop_syncer = true }

  -- What happens to a cache: an operation of a client, on the cache in memory or with `clear` or
  -- `setPersistence`, and a round of the syncer thread.
  pub data Event : Type 0 where
    on_cache : Operation m → Event
    clears_all : Bool → Event
    sets_persistence : Option CachePersistence → Event
    syncs : Event

  unfoldable pub handle : Event → LruPersistentCache × ℕ → LruPersistentCache × ℕ
  unfolding apply clear set_persistence sync_body
  handle (on_cache op) (c, n) = (record c { cache = apply m op c.cache }, n)
  handle (clears_all also_persistence) (c, n) = (clear also_persistence c, n)
  handle (sets_persistence persistence) (c, n) = (set_persistence persistence c, n)
  handle syncs (c, n) = sync_body c n

  unfoldable pub handle_all : List Event → LruPersistentCache × ℕ → LruPersistentCache × ℕ
  unfolding handle
  handle_all [] s = s
  handle_all (e ∷ events) s = handle_all events (handle e s)
