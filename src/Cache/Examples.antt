-- ===== src/Cache/Examples.antt =====
-- The caches over a map that keeps the pair that was set last.
use provider_agent_proxy.Common.{
  ℕ, ◌+◌, ◌≡◌, refl, arith, Bool, true, false, List, [], ◌∷◌, Option, none, some, ◌==◌, ==_refl,
  if◌then◌else◌, Bool-cases, inl, inr,
}
use mathlib.Core.Bool.{false≢true}
use provider_agent_proxy.Cache.Interface.{EvictingCacheMap, PersistenceLayer}
use provider_agent_proxy.Cache.InMemory.{
  LruInMemoryCache, new_cache, has_changed_since, Operation, gets, removes, puts, apply_all,
}
use provider_agent_proxy.Cache.Persistent.{
  CachePersistence, LruPersistentCache, new_persistence, sync_now, construct, has_pending_updates,
  handle_all, sync_loop, stop, Event, on_cache, syncs,
}
use provider_agent_proxy.Cache.Persistent.Syncing.{Persists, sync_now-SameContents}
use provider_agent_proxy.Cache.Persistent.Stopping.{Ends, destructor-Ends}
use provider_agent_proxy.Cache.Persistent.Unending.{no_attempts_go_on}
use provider_agent_proxy.Cache.InMemory.Versions.{SameContents}

abbrev Slot : Type 0
Slot = Option (ℕ × ℕ)

abbrev slot_peek : ℕ → Slot → Option ℕ
slot_peek k none = none
slot_peek k (some (j, v)) = if k == j then some v else none

abbrev slot_erase : ℕ → Slot → Slot × ℕ
slot_erase k none = (none, 0)
slot_erase k (some (j, v)) = if k == j then (none, 1) else (some (j, v), 0)

abbrev slot_empty : Slot → Bool
slot_empty none = true
slot_empty (some p) = false

abbrev slot_pairs : Slot → List (ℕ × ℕ)
slot_pairs none = []
slot_pairs (some p) = p ∷ []

abbrev slot_size : Slot → ℕ
slot_size none = 0
slot_size (some p) = 1

slot_set_stores : (k v : ℕ) → slot_peek k (some (k, v)) ≡ some v
slot_set_stores k v = rw (==_refl k)

slot_erase_removes : (k : ℕ) (s : Slot) → slot_peek k (slot_erase k s).0 ≡ none
slot_erase_removes k none = refl
slot_erase_removes k (some (j, v)) = elim (Bool-cases (k == j)) [ inl e ↦ rw e | inr e ↦ rw (e, e) ]

slot_erase_nothing :
    (k j : ℕ) (s : Slot) → (slot_erase k s).1 ≡ 0 → slot_peek j (slot_erase k s).0 ≡ slot_peek j s
slot_erase_nothing k j none h = refl
slot_erase_nothing k j (some (i, v)) h = elim (Bool-cases (k == i)) [
  | inl e ↦ absurd (ground arith)
  | inr e ↦ rw e
]

abbrev slot_map : EvictingCacheMap ℕ ℕ
slot_map = record {
  Store = Slot;
  peek = slot_peek;
  find = λ k s. (s, slot_peek k s);
  find_value = λ k s. refl;
  find_keeps = λ k j s. refl;
  set = λ k v s. some (k, v);
  set_stores = λ k v s. slot_set_stores k v;
  erase = slot_erase;
  erase_removes = slot_erase_removes;
  erase_nothing = slot_erase_nothing;
  size = slot_size;
  empty = slot_empty;
  clear = λ s. none;
  clear_removes = λ k s. refl;
  pairs = slot_pairs;
}

abbrev one_pair : LruInMemoryCache slot_map
one_pair = new_cache slot_map (some (5, 6))

abbrev reads : List (Operation slot_map)
reads = gets 5 ∷ removes 4 ∷ []

abbrev memory_layer : PersistenceLayer ℕ ℕ
memory_layer = record {
  Store = List (ℕ × ℕ);
  Dynamic = ℕ × ℕ;
  to_dynamic = λ p. some p;
  from_dynamic = λ p. some p;
  stored = λ s. s;
  persist = λ pairs s. (pairs, true);
  persist_stores = λ pairs s h. refl;
  load = λ s. (s, some s);
  clear = λ s. [];
}

abbrev failing_layer : PersistenceLayer ℕ ℕ
failing_layer = record {
  Store = List (ℕ × ℕ);
  Dynamic = ℕ × ℕ;
  to_dynamic = λ p. some p;
  from_dynamic = λ p. some p;
  stored = λ s. s;
  persist = λ pairs s. (s, false);
  persist_stores = λ pairs s h. absurd (false≢true h);
  load = λ s. (s, none);
  clear = λ s. [];
}

abbrev in_memory : CachePersistence slot_map memory_layer
in_memory = new_persistence slot_map memory_layer []

reads_unchanged :
    has_changed_since slot_map
      (sync_now slot_map memory_layer in_memory one_pair).0.persisted_version
      (apply_all slot_map reads one_pair)
    ≡ false
unfolding has_changed_since apply_all sync_now
reads_unchanged = refl

one_pair_changed : has_changed_since slot_map 0 one_pair ≡ true
unfolding has_changed_since
one_pair_changed = refl

one_pair_synced : (sync_now slot_map memory_layer in_memory one_pair).1 ≡ true
unfolding sync_now
one_pair_synced = refl

sync_now-SameContents_example :
    Persists slot_map memory_layer (sync_now slot_map memory_layer in_memory one_pair).0 one_pair
    × SameContents slot_map one_pair (apply_all slot_map reads one_pair)
sync_now-SameContents_example =
    sync_now-SameContents slot_map memory_layer in_memory one_pair reads (omega arith)
      one_pair_changed one_pair_synced reads_unchanged

abbrev failing : CachePersistence slot_map failing_layer
failing = new_persistence slot_map failing_layer []

abbrev a_put_and_a_sync : List (Event slot_map failing_layer)
a_put_and_a_sync = on_cache (puts 5 6) ∷ syncs ∷ []

abbrev failing_end : LruPersistentCache slot_map failing_layer × ℕ
failing_end =
    handle_all slot_map failing_layer a_put_and_a_sync
      (construct slot_map failing_layer none 3 (some failing), 0)

destructor-Ends_example :
    Ends slot_map failing_layer (3 + 1) (stop slot_map failing_layer failing_end.0) failing_end.1
destructor-Ends_example =
    destructor-Ends slot_map failing_layer a_put_and_a_sync none 3 (some failing) (omega arith)
      (omega arith)

abbrev without_attempts : LruPersistentCache slot_map failing_layer
without_attempts = construct slot_map failing_layer none 0 (some failing)

without_attempts_retries : without_attempts.n_sync_retries ≡ 0
unfolding construct
without_attempts_retries = refl

without_attempts_pending : has_pending_updates slot_map failing_layer without_attempts ≡ true
unfolding construct has_pending_updates
without_attempts_pending = refl

no_attempts_go_on_example :
    sync_loop slot_map failing_layer 1000 (stop slot_map failing_layer without_attempts) 0 ≡ none
no_attempts_go_on_example =
    no_attempts_go_on slot_map failing_layer without_attempts 0 1000 (λ pairs s. refl)
      without_attempts_retries without_attempts_pending (omega arith)
