-- ===== src/V3/Prefix/Requests.antt =====
-- The keys that the get, delete and watch requests select.
use provider_agent_proxy.Common.{
  ℕ, ◌≡◌, ◌↔◌, refl, ◌⊎◌, inl, inr, true, false, List, [], none, some, arith, Bool-cases, if-true,
  if-false, sym, ◌∙◌,
}
use provider_agent_proxy.V3.Messages.{RangeRequest, DeleteRangeRequest, WatchCreateRequest}
use provider_agent_proxy.V3.Action.{ActionParameters, range_end_of, range_end_for}
use provider_agent_proxy.V3.Action.Get
use provider_agent_proxy.V3.Action.Delete
use provider_agent_proxy.V3.Action.Watch
use provider_agent_proxy.V3.Prefix.{
  Selects, single, from_key, interval, HasPrefix, LastBelow, range_end_of-Selects,
}

-- What the caller asked for: the keys with the prefix, or the key alone.
abbrev pub Asked : ActionParameters → List ℕ → Type 0
Asked p k = ((p.with_prefix ≡ true) × HasPrefix p.key k) ⊎ ((p.with_prefix ≡ false) × (k ≡ p.key))

single-Selects : (key k : List ℕ) → Selects key [] k ↔ (k ≡ key)
single-Selects key k = (only, single refl)
  where
    only : Selects key [] k → k ≡ key
    only (single _ e) = e
    only (from_key z _) = cc
    only (interval n _ _ _) = absurd (n refl)

some_injective : {a b : List ℕ} → some a ≡ some b → a ≡ b
some_injective e = cc

-- A range end that is right for the parameters.
range_end_for-Asked :
    (p : ActionParameters) (r k : List ℕ)
    → LastBelow p.key
    → range_end_for p ≡ some r
    → Selects p.key r k ↔ Asked p k
unfolding range_end_for
range_end_for-Asked p r k h e = elim (Bool-cases p.with_prefix) [
  | inl prefix ↦
      let (to, from) =
        range_end_of-Selects p.key r k (sym (if-true p.with_prefix _ _ prefix) ∙ e) h in
      (λ s. inl (prefix, to s), back_prefix prefix from)
  | inr single_key ↦
      let nothing : r ≡ [] =
        some_injective (sym e ∙ if-false p.with_prefix (range_end_of p.key) (some []) single_key) in
      rw nothing (to_asked single_key, back_single single_key)
]
  where
    to_asked : p.with_prefix ≡ false → Selects p.key [] k → Asked p k
    to_asked single_key s = inr (single_key, (single-Selects p.key k).0 s)

    back_single : p.with_prefix ≡ false → Asked p k → Selects p.key [] k
    back_single single_key (inl (prefix, _)) = cc
    back_single single_key (inr (_, is)) = (single-Selects p.key k).1 is

    back_prefix :
        p.with_prefix ≡ true
        → (HasPrefix p.key k → Selects p.key r k)
        → Asked p k
        → Selects p.key r k
    back_prefix prefix from (inl (_, has)) = from has
    back_prefix prefix from (inr (not_prefix, _)) = cc

get_request_lem :
    (p : ActionParameters) (req : RangeRequest)
    → Get.request p ≡ some req
    → (range_end_for p ≡ some req.range_end) × (req.key ≡ p.key)
unfolding Get.request range_end_for
get_request_lem p req e = ground arith

delete_request_lem :
    (p : ActionParameters) (req : DeleteRangeRequest)
    → Delete.request p ≡ some req
    → (range_end_for p ≡ some req.range_end) × (req.key ≡ p.key)
unfolding Delete.request
delete_request_lem p req e = ground arith

watch_request_lem :
    (p : ActionParameters) (req : WatchCreateRequest)
    → Watch.request p ≡ some req
    → (range_end_for p ≡ some req.range_end) × (req.key ≡ p.key)
unfolding Watch.request
watch_request_lem p req e = ground arith

Selects-Asked :
    (p : ActionParameters) (key r k : List ℕ)
    → LastBelow p.key
    → (range_end_for p ≡ some r) × (key ≡ p.key)
    → Selects key r k ↔ Asked p k
Selects-Asked p key r k h (e, same) = rw same (range_end_for-Asked p r k h e)

-- The requests of the get, the delete and the watch action, for a key whose last byte is below 255,
-- select exactly the keys that the caller asked for: those with the key as a prefix, or the key.
pub request-Asked :
    (p : ActionParameters) (k : List ℕ) (get : RangeRequest) (del : DeleteRangeRequest)
    (watch : WatchCreateRequest)
    → LastBelow p.key
    → Get.request p ≡ some get
    → Delete.request p ≡ some del
    → Watch.request p ≡ some watch
    → (Selects get.key get.range_end k ↔ Asked p k)
      × (Selects del.key del.range_end k ↔ Asked p k)
      × (Selects watch.key watch.range_end k ↔ Asked p k)
request-Asked p k get del watch h eg ed ew = (
  Selects-Asked p get.key get.range_end k h (get_request_lem p get eg),
  Selects-Asked p del.key del.range_end k h (delete_request_lem p del ed),
  Selects-Asked p watch.key watch.range_end k h (watch_request_lem p watch ew),
)

-- Asked for the keys with the empty prefix, that is for all keys, none of the three actions has a
-- request to send: the code indexes the empty string.
pub empty_prefix_has_no_request :
    (p : ActionParameters)
    → p.with_prefix ≡ true
    → p.key ≡ []
    → (Get.request p ≡ none) × (Delete.request p ≡ none) × (Watch.request p ≡ none)
unfolding Get.request Delete.request Watch.request range_end_for range_end_of
empty_prefix_has_no_request p prefix empty = (ground arith, ground arith, ground arith)
