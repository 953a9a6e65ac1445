-- ===== src/V3/Server/Memory.antt =====
-- A store in memory that meets the assumptions of `EtcdKv`: it holds single keys, gives every stored
-- key the version 1, and answers every range with the key at its start.
use provider_agent_proxy.Common.{
  ℕ, ◌≡◌, ◌≢◌, refl, Bool, true, false, List, [], ◌∷◌, Option, none, some, arith, if◌then◌else◌,
  ltb, ==_refl, Bool-cases, inl, inr,
}
use provider_agent_proxy.Common.Int.{ℤ, pos, negsuc, eqb}
use provider_agent_proxy.V3.Messages.{
  Kv, PutRequest, RequestOp, request_range, request_put, request_delete_range, CompareResult, equal,
  greater, TargetUnion, with_version, with_mod_revision, with_value, Compare, TxnRequest,
  ResponseOp, response_range, response_put, response_delete_range, TxnResponse,
}
use provider_agent_proxy.V3.Server.Interface.{
  EtcdKv, stored, is_none, is_some, to_list, bytes_eq, value_is, mod_revision_of, all_hold, run_ops,
}

abbrev pub MemoryStore : Type 0
MemoryStore = List ℕ → Option Kv

pub bytes_eq_refl : (xs : List ℕ) → bytes_eq xs xs ≡ true
bytes_eq_refl [] = refl
bytes_eq_refl (x ∷ xs) = rw (==_refl x, bytes_eq_refl xs)

bytes_eq→eq : (xs ys : List ℕ) → bytes_eq xs ys ≡ true → xs ≡ ys
bytes_eq→eq [] [] h = refl
bytes_eq→eq [] (y ∷ ys) h = cc
bytes_eq→eq (x ∷ xs) [] h = cc
bytes_eq→eq (x ∷ xs) (y ∷ ys) h = ground (arith, bytes_eq→eq xs ys)

bytes_eq-false : (xs ys : List ℕ) → xs ≢ ys → bytes_eq xs ys ≡ false
bytes_eq-false xs ys h = elim (Bool-cases (bytes_eq xs ys)) [
  | inl same ↦ absurd (h (bytes_eq→eq xs ys same))
  | inr other ↦ other
]

abbrev write_key : MemoryStore → List ℕ → Option Kv → MemoryStore
write_key s key o k = if bytes_eq k key then o else s k

abbrev kv_of : PutRequest → Kv
kv_of p = record {
  key = p.key;
  value = p.value;
  version = pos 1;
  mod_revision = pos 1;
  lease = p.lease;
}

abbrev memory_perform : MemoryStore → RequestOp → MemoryStore × ResponseOp
memory_perform s (request_range r) =
    (s, response_range (record { revision = pos 1; kvs = to_list (s r.key) }))
memory_perform s (request_put p) = (write_key s p.key (some (kv_of p)), response_put (s p.key))
memory_perform s (request_delete_range d) = (
  write_key s d.key none,
  response_delete_range (record { revision = pos 1; prev_kvs = to_list (s d.key) }),
)

abbrev version_of : Option Kv → ℤ
version_of none = pos 0
version_of (some kv) = pos 1

abbrev is_above : ℤ → ℤ → Bool
is_above (pos a) (pos b) = ltb b a
is_above (pos a) (negsuc b) = true
is_above (negsuc a) b = false

abbrev holds_for : CompareResult → TargetUnion → Option Kv → Bool
holds_for equal (with_version v) o = eqb (version_of o) v
holds_for equal (with_mod_revision r) o = eqb (mod_revision_of o) r
holds_for equal (with_value v) o = value_is o v
holds_for greater (with_version v) o = is_above (version_of o) v
holds_for _ _ o = false

abbrev memory_holds : MemoryStore → Compare → Bool
memory_holds s c = holds_for c.result c.target_union (s c.key)

abbrev chosen : MemoryStore → TxnRequest → List RequestOp
chosen s r = if all_hold (memory_holds s) r.compare then r.success else r.failure

abbrev memory_txn : MemoryStore → TxnRequest → MemoryStore × TxnResponse
memory_txn s r = (
  (run_ops memory_perform s (chosen s r)).0,
  record {
    revision = pos 1;
    succeeded = all_hold (memory_holds s) r.compare;
    responses = (run_ops memory_perform s (chosen s r)).1;
  },
)

pub version-absent : (o : Option Kv) → eqb (version_of o) (pos 0) ≡ is_none o
version-absent none = refl
version-absent (some kv) = refl

pub version-present : (o : Option Kv) → is_above (version_of o) (pos 0) ≡ is_some o
version-present none = refl
version-present (some kv) = refl

pub write_key_self : (s : MemoryStore) (key : List ℕ) (o : Option Kv) → write_key s key o key ≡ o
write_key_self s key o = rw (bytes_eq_refl key)

pub write_key_other :
    (s : MemoryStore) (key k : List ℕ) (o : Option Kv) → k ≢ key → write_key s key o k ≡ s k
write_key_other s key k o h = rw (bytes_eq-false k key h)

abbrev pub memory : EtcdKv
memory = record {
  Store = MemoryStore;
  get = λ s. s;
  holds = memory_holds;
  perform = memory_perform;
  txn = memory_txn;
  holds_absent = λ s key. version-absent (s key);
  holds_present = λ s key. version-present (s key);
  holds_value = λ s key v. refl;
  holds_mod = λ s key r. refl;
  txn_store = λ s r. refl;
  txn_succeeded = λ s r. refl;
  txn_responses = λ s r. refl;
  put_stores = λ s key value lease.
      stored _ (write_key_self s key _) refl refl refl (λ k h. write_key_other s key k _ h);
  put_replies = λ s key value lease. refl;
  range_keeps = λ s key. refl;
  range_replies = λ s key. (pos 1, refl);
  delete_removes = λ s key. write_key_self s key none;
  delete_keeps = λ s key k h. write_key_other s key k none h;
  delete_replies = λ s key. (pos 1, refl);
}
