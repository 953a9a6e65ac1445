-- ===== src/Cache/Interface.antt =====
-- folly's EvictingCacheMap, which the cache delegates to and the repository does not contain.
use provider_agent_proxy.Common.{ℕ, ◌≡◌, Bool, true, List, Option, none, some}

pub record EvictingCacheMap (K V : Type 0) : Type 1 where
  pub Store : Type 0
  -- What is stored under a key, without a change to the order of use.
  pub peek : K → Store → Option V
  -- `find`, which makes the key the most recently used.
  pub find : K → Store → Store × Option V
  pub find_value : (k : K) (s : Store) → (find k s).1 ≡ peek k s
  pub find_keeps : (k j : K) (s : Store) → peek j (find k s).0 ≡ peek j s
  -- `set` may evict other keys.
  pub set : K → V → Store → Store
  pub set_stores : (k : K) (v : V) (s : Store) → peek k (set k v s) ≡ some v
  -- `erase` and the number of keys that it erased.
  pub erase : K → Store → Store × ℕ
  pub erase_removes : (k : K) (s : Store) → peek k (erase k s).0 ≡ none
  pub erase_nothing : (k j : K) (s : Store) → (erase k s).1 ≡ 0 → peek j (erase k s).0 ≡ peek j s
  pub size : Store → ℕ
  pub empty : Store → Bool
  pub clear : Store → Store
  pub clear_removes : (k : K) (s : Store) → peek k (clear s) ≡ none
  -- The pairs in the order of iteration.
  pub pairs : Store → List (K × V)

-- An implementation of the virtual functions of CachePersistence, with folly's conversions between
-- a pair and a dynamic value, which are `none` where they throw.
pub record PersistenceLayer (K V : Type 0) : Type 1 where
  pub Store : Type 0
  pub Dynamic : Type 0
  pub to_dynamic : K × V → Option Dynamic
  pub from_dynamic : Dynamic → Option (K × V)
  -- What is stored.
  pub stored : Store → List Dynamic
  -- `persist`, which returns whether it succeeded.
  pub persist : List Dynamic → Store → Store × Bool
  pub persist_stores :
      (pairs : List Dynamic) (s : Store)
      → (persist pairs s).1 ≡ true
      → stored (persist pairs s).0 ≡ pairs
  pub load : Store → Store × Option (List Dynamic)
  pub clear : Store → Store
