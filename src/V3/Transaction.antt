-- ===== src/V3/Transaction.antt =====
-- wangle/v3: Transaction, which builds the requests of the transactional actions.
use provider_agent_proxy.Common.{List, [], ◌∷◌, ◌++◌, Bool, true, false, ℕ, if◌then◌else◌}
use provider_agent_proxy.Common.Int.{ℤ, pos}
use provider_agent_proxy.V3.Messages.{
  by_key, unsorted, ascend, RangeRequest, PutRequest, RequestOp, request_range, request_put,
  request_delete_range, CompareResult, CompareTarget, with_version, with_mod_revision, with_value,
  Compare, TxnRequest, LeaseGrantRequest,
}

pub record Transaction : Type 0 where
  pub txn_request : TxnRequest
  pub leasegrant_request : LeaseGrantRequest
  pub key : List ℕ

-- The constructors; the one with no argument leaves the key empty.
abbrev pub new_transaction : List ℕ → Transaction
new_transaction key = record {
  txn_request = record { compare = []; success = []; failure = [] };
  leasegrant_request = record { ttl = pos 0 };
  key = key;
}

-- Requests with only their key set.
abbrev pub get_request : List ℕ → RangeRequest
get_request key = record { key = key; range_end = []; sort_target = by_key; sort_order = unsorted }

abbrev pub put_request : List ℕ → List ℕ → ℤ → PutRequest
put_request key value leaseid = record { key = key; value = value; prev_kv = true; lease = leaseid }

abbrev pub add_compare : Transaction → Compare → Transaction
add_compare t c = record t {
  txn_request = record (t.txn_request) { compare = t.txn_request.compare ++ (c ∷ []) };
}

abbrev pub add_success : Transaction → RequestOp → Transaction
add_success t op = record t {
  txn_request = record (t.txn_request) { success = t.txn_request.success ++ (op ∷ []) };
}

abbrev pub add_failure : Transaction → RequestOp → Transaction
add_failure t op = record t {
  txn_request = record (t.txn_request) { failure = t.txn_request.failure ++ (op ∷ []) };
}

-- The three overloads of init_compare.
unfoldable pub init_compare_version : Transaction → CompareResult → CompareTarget → Transaction
init_compare_version t result target =
    add_compare t (record {
      result = result;
      target = target;
      key = t.key;
      target_union = with_version (pos 0);
    })

unfoldable pub init_compare_value :
    Transaction → List ℕ → CompareResult → CompareTarget → Transaction
init_compare_value t old_value result target =
    add_compare t (record {
      result = result;
      target = target;
      key = t.key;
      target_union = with_value old_value;
    })

unfoldable pub init_compare_index : Transaction → ℤ → CompareResult → CompareTarget → Transaction
init_compare_index t old_index result target = add_compare t (record {
  result = result;
  target = target;
  key = t.key;
  target_union = with_mod_revision old_index;
})

unfoldable pub setup_basic_failure_operation : Transaction → List ℕ → Transaction
setup_basic_failure_operation t key = add_failure t (request_range (get_request key))

unfoldable pub setup_set_failure_operation : Transaction → List ℕ → List ℕ → ℤ → Transaction
setup_set_failure_operation t key value leaseid =
    add_failure (add_failure t (request_put (put_request key value leaseid)))
      (request_range (get_request key))

unfoldable pub setup_basic_create_sequence : Transaction → List ℕ → List ℕ → ℤ → Transaction
setup_basic_create_sequence t key value leaseid =
    add_success (add_success t (request_put (put_request key value leaseid)))
      (request_range (get_request key))

-- The key is the transaction's own.
unfoldable pub setup_compare_and_swap_sequence : Transaction → List ℕ → ℤ → Transaction
setup_compare_and_swap_sequence t value leaseid =
    add_success (add_success t (request_put (put_request t.key value leaseid)))
      (request_range (get_request t.key))

unfoldable pub setup_delete_sequence : Transaction → List ℕ → List ℕ → Bool → Transaction
setup_delete_sequence t key range_end recursive = add_success t (
    request_delete_range
      (record { key = key; range_end = if recursive then range_end else []; prev_kv = true }))

unfoldable pub setup_delete_failure_operation : Transaction → List ℕ → List ℕ → Bool → Transaction
setup_delete_failure_operation t key range_end recursive =
    add_failure
      (add_failure t (
        request_range (
          if recursive
          then record {
            key = key;
            range_end = range_end;
            sort_target = by_key;
            sort_order = ascend;
          }
          else get_request key)))
      (request_delete_range
        (record { key = key; range_end = if recursive then range_end else []; prev_kv = false }))

unfoldable pub setup_compare_and_delete_operation : Transaction → List ℕ → Transaction
setup_compare_and_delete_operation t key =
    add_success t (request_delete_range (record { key = key; range_end = []; prev_kv = true }))

unfoldable pub setup_lease_grant_operation : Transaction → ℤ → Transaction
setup_lease_grant_operation t ttl = record t { leasegrant_request = record { ttl = ttl } }
