-- ===== src/V3/Server/Interface.antt =====
-- etcd's KV service (proto/rpc.proto): a store, and what transactions do to it.
use provider_agent_proxy.Common.{
  ℕ, ◌≡◌, ◌≢◌, Bool, true, false, ◌&&◌, List, [], ◌∷◌, Option, none, some, if◌then◌else◌, ◌==◌,
}
use provider_agent_proxy.Common.Int.{ℤ, pos, eqb}
use provider_agent_proxy.V3.Messages.{
  Kv, RequestOp, request_range, request_put, request_delete_range, equal, greater, target_version,
  target_mod, target_value, with_version, with_mod_revision, with_value, Compare, TxnRequest,
  ResponseOp, response_range, response_put, response_delete_range, TxnResponse,
}
use provider_agent_proxy.V3.Transaction.{get_request}

abbrev pub is_none : Option Kv → Bool
is_none none = true
is_none (some kv) = false

abbrev pub is_some : Option Kv → Bool
is_some none = false
is_some (some kv) = true

abbrev pub to_list : Option Kv → List Kv
to_list none = []
to_list (some kv) = kv ∷ []

-- Equality of byte strings.
abbrev pub bytes_eq : List ℕ → List ℕ → Bool
bytes_eq [] [] = true
bytes_eq [] (y ∷ ys) = false
bytes_eq (x ∷ xs) [] = false
bytes_eq (x ∷ xs) (y ∷ ys) = x == y && bytes_eq xs ys

abbrev pub value_is : Option Kv → List ℕ → Bool
value_is none v = false
value_is (some kv) v = bytes_eq kv.value v

-- A key that is not there has the revision 0.
abbrev pub mod_revision_of : Option Kv → ℤ
mod_revision_of none = pos 0
mod_revision_of (some kv) = kv.mod_revision

abbrev pub all_hold : (Compare → Bool) → List Compare → Bool
all_hold holds [] = true
all_hold holds (c ∷ cs) = holds c && all_hold holds cs

module _ {Store : Type 0} where
  -- Operations in order, each on the store that the one before leaves.
  abbrev pub run_ops :
      (Store → RequestOp → Store × ResponseOp) → Store → List RequestOp → Store × List ResponseOp
  run_ops perform s [] = (s, [])
  run_ops perform s (op ∷ ops) =
      let (s', resp) = perform s op in
      let (s'', resps) = run_ops perform s' ops in (s'', resp ∷ resps)

-- The store holds `value` under `key` now, with the lease, and all else as before.
pub data Stored {Store : Type 0} (get : Store → List ℕ → Option Kv) (key value : List ℕ) (lease : ℤ)
    (s s' : Store) : Type 0 where
  stored :
      (kv : Kv)
      → get s' key ≡ some kv
      → kv.key ≡ key
      → kv.value ≡ value
      → kv.lease ≡ lease
      → ((k : List ℕ) → k ≢ key → get s' k ≡ get s k)
      → Stored get key value lease s s'

pub record EtcdKv : Type 1 where
  pub Store : Type 0
  pub get : Store → List ℕ → Option Kv
  pub holds : Store → Compare → Bool
  pub perform : Store → RequestOp → Store × ResponseOp
  pub txn : Store → TxnRequest → Store × TxnResponse
  -- A key has the version 0 exactly while it is not there, and a higher one otherwise.
  pub holds_absent :
      (s : Store) (key : List ℕ)
      → holds s (record {
        result = equal;
        target = target_version;
        key = key;
        target_union = with_version (pos 0);
      })
        ≡ is_none (get s key)
  pub holds_present :
      (s : Store) (key : List ℕ)
      → holds s (record {
        result = greater;
        target = target_version;
        key = key;
        target_union = with_version (pos 0);
      })
        ≡ is_some (get s key)
  pub holds_value :
      (s : Store) (key v : List ℕ)
      → holds s
          (record { result = equal; target = target_value; key = key; target_union = with_value v })
        ≡ value_is (get s key) v
  pub holds_mod :
      (s : Store) (key : List ℕ) (r : ℤ)
      → holds s (record {
        result = equal;
        target = target_mod;
        key = key;
        target_union = with_mod_revision r;
      })
        ≡ eqb (mod_revision_of (get s key)) r
  -- A transaction performs one of its two lists.
  pub txn_store :
      (s : Store) (r : TxnRequest)
      → (txn s r).0
        ≡ (run_ops perform s (if all_hold (holds s) r.compare then r.success else r.failure)).0
  pub txn_succeeded :
      (s : Store) (r : TxnRequest) → (txn s r).1.succeeded ≡ all_hold (holds s) r.compare
  pub txn_responses :
      (s : Store) (r : TxnRequest)
      → (txn s r).1.responses
        ≡ (run_ops perform s (if all_hold (holds s) r.compare then r.success else r.failure)).1
  -- A put with `prev_kv`.
  pub put_stores :
      (s : Store) (key value : List ℕ) (lease : ℤ)
      → Stored get key value lease s
          (perform s
            (request_put (record { key = key; value = value; prev_kv = true; lease = lease }))).0
  pub put_replies :
      (s : Store) (key value : List ℕ) (lease : ℤ)
      → (perform s
          (request_put (record { key = key; value = value; prev_kv = true; lease = lease }))).1
        ≡ response_put (get s key)
  -- A range over one key.
  pub range_keeps : (s : Store) (key : List ℕ) → (perform s (request_range (get_request key))).0 ≡ s
  pub range_replies :
      (s : Store) (key : List ℕ)
      → (revision : ℤ) × ((perform s (request_range (get_request key))).1
          ≡ response_range (record { revision = revision; kvs = to_list (get s key) }))
  -- A deletion of one key with `prev_kv`.
  pub delete_removes :
      (s : Store) (key : List ℕ)
      → get
          (perform s
            (request_delete_range (record { key = key; range_end = []; prev_kv = true }))).0
          key
        ≡ none
  pub delete_keeps :
      (s : Store) (key k : List ℕ)
      → k ≢ key
      → get
          (perform s
            (request_delete_range (record { key = key; range_end = []; prev_kv = true }))).0
          k
        ≡ get s k
  pub delete_replies :
      (s : Store) (key : List ℕ)
      → (revision : ℤ) × ((perform s
            (request_delete_range (record { key = key; range_end = []; prev_kv = true }))).1
          ≡ response_delete_range (record { revision = revision; prev_kvs = to_list (get s key) }))
