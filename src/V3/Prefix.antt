-- ===== src/V3/Prefix.antt =====
-- wangle/v3: which keys the requests for a prefix select. The order of keys and the meaning of a
-- range end are those that etcd documents (RangeRequest in proto/rpc.proto): no range end selects the
-- key alone, "\0" every key from the given one on, and any other the keys from the given one up to it.
pub mod Requests
use provider_agent_proxy.Common.{
  ℕ, zero, suc, ◌+◌, ◌%◌, ◌≤◌, ◌<◌, ◌≡◌, ◌≢◌, ◌↔◌, refl, sym, subst, ◌⊎◌, inl, inr, List, [], ◌∷◌,
  Option, none, some, arith, Option-cases, length,
}
use provider_agent_proxy.V3.Action.{range_end_of}

-- Bytes in lexicographic order.
abbrev pub Before : List ℕ → List ℕ → Type 0
Before [] [] = ⊥
Before [] (y ∷ ys) = Unit {0}
Before (x ∷ xs) [] = ⊥
Before (x ∷ xs) (y ∷ ys) = (x < y) ⊎ ((x ≡ y) × Before xs ys)

abbrev pub HasPrefix : List ℕ → List ℕ → Type 0
HasPrefix [] k = Unit {0}
HasPrefix (x ∷ p) [] = ⊥
HasPrefix (x ∷ p) (y ∷ k) = (x ≡ y) × HasPrefix p k

pub data Selects (key range_end k : List ℕ) : Type 0 where
  single : range_end ≡ [] → k ≡ key → Selects key range_end k
  from_key : range_end ≡ 0 ∷ [] → ¬ Before k key → Selects key range_end k
  interval :
      range_end ≢ []
      → range_end ≢ 0 ∷ []
      → ¬ Before k key
      → Before k range_end
      → Selects key range_end k

-- The last byte is below 255, or is 255.
abbrev pub LastBelow : List ℕ → Type 0
LastBelow [] = ⊥
LastBelow (b ∷ []) = b < 255
LastBelow (b ∷ c ∷ bs) = LastBelow (c ∷ bs)

abbrev pub LastFull : List ℕ → Type 0
LastFull [] = ⊥
LastFull (b ∷ []) = b ≡ 255
LastFull (b ∷ c ∷ bs) = LastFull (c ∷ bs)

range_end_of_step :
    (b c : ℕ) (bs r : List ℕ)
    → range_end_of (b ∷ c ∷ bs) ≡ some r
    → (r' : List ℕ) × (range_end_of (c ∷ bs) ≡ some r') × (r ≡ b ∷ r')
unfolding range_end_of
range_end_of_step b c bs r e = elim (Option-cases (range_end_of (c ∷ bs))) [
  | inl missing ↦ cc (rw (missing, range_end_of) at e)
  | inr (r', found) ↦ (r', found, ground arith)
]

range_end_of_last : (b : ℕ) (r : List ℕ) → range_end_of (b ∷ []) ≡ some r → r ≡ (b + 1) % 256 ∷ []
unfolding range_end_of
range_end_of_last b r e = cc

not-Before-nil : (k : List ℕ) → ¬ Before k []
not-Before-nil [] h = h
not-Before-nil (x ∷ k) h = h

-- Between a key and its range end lie only keys with that prefix.
interval-HasPrefix :
    (key k r : List ℕ)
    → range_end_of key ≡ some r
    → LastBelow key
    → ¬ Before k key
    → Before k r
    → HasPrefix key k
interval-HasPrefix [] k r e h n lt = absurd h
interval-HasPrefix (b ∷ []) [] r e h n lt = absurd (n tt)
interval-HasPrefix (b ∷ []) (x ∷ k) r e h n lt =
    let not_less : ¬ (x < b) = λ l. n (inl l) in
    elim (subst (Before (x ∷ k)) (range_end_of_last b r e) lt) [
      | inl less ↦ (omega arith, tt)
      | inr (same, rest) ↦ absurd (not-Before-nil k rest)
    ]
interval-HasPrefix (b ∷ c ∷ bs) [] r e h n lt = absurd (n tt)
interval-HasPrefix (b ∷ c ∷ bs) (x ∷ k) r e h n lt =
    let (r', found, is) = range_end_of_step b c bs r e in
    elim (subst (Before (x ∷ k)) is lt) [
      | inl less ↦ absurd (n (inl less))
      | inr (same, rest) ↦
          (sym same, interval-HasPrefix (c ∷ bs) k r' found h (λ l. n (inr (same, l))) rest)
    ]

one_byte-not-Before : (b x : ℕ) (k : List ℕ) → b ≡ x → ¬ Before (x ∷ k) (b ∷ [])
one_byte-not-Before b x k e (inl less) = omega arith
one_byte-not-Before b x k e (inr (same, rest)) = not-Before-nil k rest

HasPrefix-interval :
    (key k r : List ℕ)
    → range_end_of key ≡ some r
    → LastBelow key
    → HasPrefix key k
    → ¬ Before k key × Before k r
HasPrefix-interval [] k r e h p = absurd h
HasPrefix-interval (b ∷ []) [] r e h p = absurd p
HasPrefix-interval (b ∷ []) (x ∷ k) r e h p =
    let next : Before (x ∷ k) ((b + 1) % 256 ∷ []) = inl (omega arith) in
    (one_byte-not-Before b x k p.0, subst (Before (x ∷ k)) (sym (range_end_of_last b r e)) next)
HasPrefix-interval (b ∷ c ∷ bs) [] r e h p = absurd p
HasPrefix-interval (b ∷ c ∷ bs) (x ∷ k) r e h p =
    let (r', found, is) = range_end_of_step b c bs r e in
    let (above, below) = HasPrefix-interval (c ∷ bs) k r' found h p.1 in
    (not_before b x k (c ∷ bs) p.0 above, subst (Before (x ∷ k)) (sym is) (inr (sym p.0, below)))
  where
    not_before : (b x : ℕ) (k rest : List ℕ) → b ≡ x → ¬ Before k rest → ¬ Before (x ∷ k) (b ∷ rest)
    not_before b x k rest e n (inl less) = omega arith
    not_before b x k rest e n (inr (same, l)) = n l

range_end_of-ne-nil : (key r : List ℕ) → range_end_of key ≡ some r → r ≢ []
range_end_of-ne-nil [] r e z = unfold range_end_of in cc
range_end_of-ne-nil (b ∷ []) r e z = cc (range_end_of_last b r e)
range_end_of-ne-nil (b ∷ c ∷ bs) r e z = cc (range_end_of_step b c bs r e).2

range_end_of-ne-zero : (key r : List ℕ) → range_end_of key ≡ some r → LastBelow key → r ≢ 0 ∷ []
range_end_of-ne-zero [] r e h z = absurd h
range_end_of-ne-zero (b ∷ []) r e h z = ground (arith, range_end_of_last b r e)
range_end_of-ne-zero (b ∷ c ∷ bs) r e h z =
    let (r', found, is) = range_end_of_step b c bs r e in
    range_end_of-ne-nil (c ∷ bs) r' found (ground arith)

-- For a prefix whose last byte is below 255, the range end that the client computes selects exactly
-- the keys with that prefix.
pub range_end_of-Selects :
    (key r k : List ℕ)
    → range_end_of key ≡ some r
    → LastBelow key
    → Selects key r k ↔ HasPrefix key k
range_end_of-Selects key r k e h = (selected, prefixed)
  where
    selected : Selects key r k → HasPrefix key k
    selected (single z _) = absurd (range_end_of-ne-nil key r e z)
    selected (from_key z _) = absurd (range_end_of-ne-zero key r e h z)
    selected (interval _ _ n lt) = interval-HasPrefix key k r e h n lt

    prefixed : HasPrefix key k → Selects key r k
    prefixed p =
        let (above, below) = HasPrefix-interval key k r e h p in
        interval (range_end_of-ne-nil key r e) (range_end_of-ne-zero key r e h) above below

full-Before :
    (key k r : List ℕ) → range_end_of key ≡ some r → LastFull key → Before k r → Before k key
full-Before [] k r e h lt = absurd h
full-Before (b ∷ []) [] r e h lt = tt
full-Before (b ∷ []) (x ∷ k) r e h lt = elim (subst (Before (x ∷ k)) (range_end_of_last b r e) lt) [
  | inl less ↦ inl (omega arith)
  | inr (same, rest) ↦ absurd (not-Before-nil k rest)
]
full-Before (b ∷ c ∷ bs) [] r e h lt = tt
full-Before (b ∷ c ∷ bs) (x ∷ k) r e h lt =
    let (r', found, is) = range_end_of_step b c bs r e in
    elim (subst (Before (x ∷ k)) is lt) [
      | inl less ↦ inl less
      | inr (same, rest) ↦ inr (same, full-Before (c ∷ bs) k r' found h rest)
    ]

-- For a key of two bytes or more whose last byte is 255, the range from the key to the range end
-- that the client computes for a prefix selects no key at all, not even the key itself.
pub full_byte-not-Selects :
    (a b : ℕ) (bs r k : List ℕ)
    → range_end_of (a ∷ b ∷ bs) ≡ some r
    → LastFull (a ∷ b ∷ bs)
    → ¬ Selects (a ∷ b ∷ bs) r k
full_byte-not-Selects a b bs r k e h (single z _) = range_end_of-ne-nil (a ∷ b ∷ bs) r e z
full_byte-not-Selects a b bs r k e h (from_key z _) =
    let (r', found, is) = range_end_of_step a b bs r e in
    range_end_of-ne-nil (b ∷ bs) r' found (ground arith)
full_byte-not-Selects a b bs r k e h (interval _ _ n lt) = n (full-Before (a ∷ b ∷ bs) k r e h lt)
