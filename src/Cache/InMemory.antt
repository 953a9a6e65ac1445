-- ===== src/Cache/InMemory.antt =====
-- wangle/client/persistence/LRUInMemoryCache.h and LRUInMemoryCache-inl.h. The lock is left out: each
-- operation holds it from its start to its end.
pub mod Versions
use provider_agent_proxy.Common.{
  ℕ, zero, suc, ◌+◌, ◌%◌, ◌^◌, ◌==◌, ◌≡◌, Bool, true, false, not, List, [], ◌∷◌, Option, none, some,
  if◌then◌else◌, ltb,
}
use mathlib.Core.Option
use provider_agent_proxy.Cache.Interface.{EvictingCacheMap}

module _ {K V : Type 0} (m : EvictingCacheMap K V) where
  pub record LruInMemoryCache : Type 0 where
    pub cache : m.Store
    pub version : ℕ

  -- The constructor, on a new store of the given capacity.
  abbrev pub new_cache : m.Store → LruInMemoryCache
  new_cache s = record { cache = s; version = 1 }

  abbrev pub increment_version : LruInMemoryCache → LruInMemoryCache
  increment_version c = record c { version = (c.version + 1) % 2 ^ 64 }

  unfoldable pub get : K → LruInMemoryCache → LruInMemoryCache × Option V
  get k c = let (s, found) = m.find k c.cache in (record c { cache = s }, found)

  unfoldable pub put : K → V → LruInMemoryCache → LruInMemoryCache
  put k v c = increment_version (record c { cache = m.set k v c.cache })

  unfoldable pub remove : K → LruInMemoryCache → LruInMemoryCache × Bool
  remove k c =
      let (s, n_erased) = m.erase k c.cache in
      if ltb 0 n_erased
      then (increment_version (record c { cache = s }), true)
      else (record c { cache = s }, false)

  unfoldable pub size : LruInMemoryCache → ℕ
  size c = m.size c.cache

  unfoldable pub clear : LruInMemoryCache → LruInMemoryCache
  clear c = if m.empty c.cache then c else increment_version (record c { cache = m.clear c.cache })

  unfoldable pub has_changed_since : ℕ → LruInMemoryCache → Bool
  has_changed_since version c = not (c.version == version)

  -- The loop of `loadData`, with `updated`. An entry that is `none` throws when it is converted,
  -- which ends the loop.
  unfoldable pub load_loop : List (Option (K × V)) → m.Store → Bool → m.Store × Bool
  load_loop [] s updated = (s, updated)
  load_loop (none ∷ entries) s updated = (s, updated)
  load_loop (some (k, v) ∷ entries) s updated = load_loop entries (m.set k v s) true

  unfoldable pub load_data : List (Option (K × V)) → LruInMemoryCache → LruInMemoryCache × ℕ
  unfolding load_loop
  load_data entries c =
      let (s, updated) = load_loop entries c.cache false in
      let c' = record c { cache = s } in
      let c'' = if updated then increment_version c' else c' in (c'', c''.version)

  -- The loop of `convertToKeyValuePairs`, with the conversion of a pair, which is `none` where it
  -- throws.
  unfoldable pub convert_pairs : {D : Type 0} → (K × V → Option D) → List (K × V) → Option (List D)
  convert_pairs to_dynamic [] = some []
  convert_pairs to_dynamic (p ∷ ps) = elim (to_dynamic p) [
    | none ↦ none
    | some d ↦ Option.map (λ ds. d ∷ ds) (convert_pairs to_dynamic ps)
  ]

  unfoldable pub convert_to_key_value_pairs :
      {D : Type 0} → (K × V → Option D) → LruInMemoryCache → Option (List D × ℕ)
  unfolding convert_pairs
  convert_to_key_value_pairs to_dynamic c =
      Option.map (λ ds. (ds, c.version)) (convert_pairs to_dynamic (m.pairs c.cache))

  -- The operations that change a cache.
  pub data Operation : Type 0 where
    gets removes : K → Operation
    puts : K → V → Operation
    clears : Operation
    loads : List (Option (K × V)) → Operation

  unfoldable pub apply : Operation → LruInMemoryCache → LruInMemoryCache
  unfolding get put remove clear load_data
  apply (gets k) c = (get k c).0
  apply (puts k v) c = put k v c
  apply (removes k) c = (remove k c).0
  apply clears c = clear c
  apply (loads entries) c = (load_data entries c).0

  unfoldable pub apply_all : List Operation → LruInMemoryCache → LruInMemoryCache
  unfolding apply
  apply_all [] c = c
  apply_all (op ∷ ops) c = apply_all ops (apply op c)
