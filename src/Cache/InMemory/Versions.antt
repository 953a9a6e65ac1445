-- ===== src/Cache/InMemory/Versions.antt =====
-- What the version of the cache says about its contents.
use provider_agent_proxy.Common.{
  ◌+◌, ◌%◌, ◌^◌, ◌≡◌, ◌<◌, ◌⊎◌, inl, inr, refl, ◌∙◌, true, false, List, [], ◌∷◌, Option, none, some,
  arith, ltb, Bool-cases, length,
}
use provider_agent_proxy.Cache.Interface.{EvictingCacheMap}
use provider_agent_proxy.Cache.InMemory.{
  LruInMemoryCache, get, put, remove, clear, has_changed_since, load_loop, load_data, Operation,
  gets, removes, puts, clears, loads, apply, apply_all,
}

module _ {K V : Type 0} (m : EvictingCacheMap K V) where
  -- Both hold the same values.
  abbrev pub SameContents : LruInMemoryCache m → LruInMemoryCache m → Type 0
  SameContents c c' = (k : K) → m.peek k c'.cache ≡ m.peek k c.cache

  -- The version is the next one, or it and the contents are as before.
  abbrev Kept : LruInMemoryCache m → LruInMemoryCache m → Type 0
  Kept c c' =
      (c'.version ≡ (c.version + 1) % 2 ^ 64) ⊎ ((c'.version ≡ c.version) × SameContents c c')

  get-Kept : (k : K) (c : LruInMemoryCache m) → Kept c (get m k c).0
  unfolding get
  get-Kept k c = inr (refl, λ j. m.find_keeps k j c.cache)

  put-Kept : (k : K) (v : V) (c : LruInMemoryCache m) → Kept c (put m k v c)
  unfolding put
  put-Kept k v c = inl refl

  remove-Kept : (k : K) (c : LruInMemoryCache m) → Kept c (remove m k c).0
  unfolding remove
  remove-Kept k c = elim (Bool-cases (ltb 0 (m.erase k c.cache).1)) [
    | inl some_erased ↦ rw some_erased (inl refl)
    | inr none_erased ↦ rw none_erased (inr (refl, λ j. m.erase_nothing k j c.cache (ground arith)))
  ]

  clear-Kept : (c : LruInMemoryCache m) → Kept c (clear m c)
  unfolding clear
  clear-Kept c = elim (Bool-cases (m.empty c.cache)) [
    | inl e ↦ rw e (inr (refl, λ j. refl))
    | inr e ↦ rw e (inl refl)
  ]

  load_loop-updated :
      (entries : List (Option (K × V))) (s : m.Store) → (load_loop m entries s true).1 ≡ true
  unfolding load_loop
  load_loop-updated [] s = refl
  load_loop-updated (none ∷ entries) s = refl
  load_loop-updated (some (k, v) ∷ entries) s = load_loop-updated entries (m.set k v s)

  load_data-Kept :
      (entries : List (Option (K × V))) (c : LruInMemoryCache m) → Kept c (load_data m entries c).0
  unfolding load_data
  load_data-Kept [] c = inr (refl, λ j. refl)
  load_data-Kept (none ∷ entries) c = inr (refl, λ j. refl)
  load_data-Kept (some (k, v) ∷ entries) c =
      rw (load_loop-updated entries (m.set k v c.cache)) (inl refl)

  apply-Kept : (op : Operation m) (c : LruInMemoryCache m) → Kept c (apply m op c)
  unfolding apply
  apply-Kept (gets k) c = get-Kept k c
  apply-Kept (puts k v) c = put-Kept k v c
  apply-Kept (removes k) c = remove-Kept k c
  apply-Kept clears c = clear-Kept c
  apply-Kept (loads entries) c = load_data-Kept entries c

  apply_all-Kept :
      (ops : List (Operation m)) (c : LruInMemoryCache m)
      → c.version + length ops < 2 ^ 64
      → (c.version < (apply_all m ops c).version)
        ⊎ (((apply_all m ops c).version ≡ c.version) × SameContents c (apply_all m ops c))
  unfolding apply_all
  apply_all-Kept [] c h = inr (refl, λ k. refl)
  apply_all-Kept (op ∷ ops) c h = elim (apply-Kept op c) [
    | inl next ↦ elim (apply_all-Kept ops (apply m op c) (omega arith)) [
      | inl more ↦ inl (omega arith)
      | inr (same, _) ↦ inl (omega arith)
    ]
    | inr (version, contents) ↦ elim (apply_all-Kept ops (apply m op c) (omega arith)) [
      | inl more ↦ inl (omega arith)
      | inr (same, rest) ↦ inr (same ∙ version, λ k. rest k ∙ contents k)
    ]
  ]

  -- Where the version, and one for each operation, stays below 2 ^ 64, a cache that has not changed
  -- since its version, as `hasChangedSince` says after the operations, holds under every key what it
  -- held before them.
  pub unchanged-SameContents :
      (ops : List (Operation m)) (c : LruInMemoryCache m)
      → c.version + length ops < 2 ^ 64
      → has_changed_since m c.version (apply_all m ops c) ≡ false
      → SameContents c (apply_all m ops c)
  unfolding has_changed_since
  unchanged-SameContents ops c h e = elim (apply_all-Kept ops c h) [
    | inl more ↦ absurd (ground arith)
    | inr (same, contents) ↦ contents
  ]

  remove-find : (k : K) (c : LruInMemoryCache m) → (m.find k (remove m k c).0.cache).1 ≡ none
  unfolding remove
  remove-find k c = elim (Bool-cases (ltb 0 (m.erase k c.cache).1)) [
    | inl e ↦ rw e (m.find_value k (m.erase k c.cache).0 ∙ m.erase_removes k c.cache)
    | inr e ↦ rw e (m.find_value k (m.erase k c.cache).0 ∙ m.erase_removes k c.cache)
  ]

  -- For a cache with a version below 2 ^ 64, a value that was put under a key is what the next
  -- `get` of the key returns, and the version has changed; and after a `remove` of the key
  -- `get` finds nothing.
  pub get-put-remove :
      (k : K) (v : V) (c : LruInMemoryCache m)
      → c.version < 2 ^ 64
      → ((get m k (put m k v c)).1 ≡ some v)
        × (has_changed_since m c.version (put m k v c) ≡ true)
        × ((get m k (remove m k c).0).1 ≡ none)
  unfolding get put has_changed_since
  get-put-remove k v c h =
      (m.find_value k (m.set k v c.cache) ∙ m.set_stores k v c.cache, ground arith, remove-find k c)
