-- ===== src/V3/Action.antt =====
-- wangle/v3: the actions, each a request that its constructor sends and a ParseResponse for the
-- answer. The stubs, the context and the completion queue are gRPC's.
pub mod Get
pub mod Delete
pub mod CompareAndSwap
pub mod CompareAndDelete
pub mod Set
pub mod Update
pub mod LeaseGrant
pub mod Watch
use provider_agent_proxy.Common.{
  List, [], ◌∷◌, ◌++◌, Bool, true, false, ℕ, ◌+◌, ◌%◌, Option, none, some, String, not, ◌&&◌,
  if◌then◌else◌,
}
use provider_agent_proxy.Common.Int.{ℤ, pos, eqb}
use text.Mathlib.Text.{◌==◌ as str_eq}
use provider_agent_proxy.V3.Messages.{
  SortTarget, by_key, SortOrder, unsorted, ascend, RangeRequest, DeleteRangeRequest, CompareResult,
  equal, greater, CompareTarget, target_version, target_mod, target_value, TxnRequest,
  LeaseGrantRequest, WatchCreateRequest, RangeResponse, DeleteRangeResponse, TxnResponse,
  LeaseGrantResponse, WatchResponse, Status, ok, failed,
}
use provider_agent_proxy.V3.Response.{
  V3Response, new_response, set_error, set_action_of, parse_range, parse_delete_range, parse_txn,
  parse_lease_grant, parse_watch, create_action, compareswap_action, update_action, set_action,
  comparedelete_action,
}
use provider_agent_proxy.V3.Transaction.{
  Transaction, new_transaction, init_compare_version, init_compare_value, init_compare_index,
  setup_basic_failure_operation, setup_set_failure_operation, setup_basic_create_sequence,
  setup_compare_and_swap_sequence, setup_compare_and_delete_operation, setup_lease_grant_operation,
}

pub data AtomicityType : Type 0 where
  prev_index prev_value : AtomicityType

-- The `int`s among the fields and the `int64_t` lease are `ℤ`; the three stubs are left out.
pub record ActionParameters : Type 0 where
  pub with_prefix : Bool
  pub revision : ℤ
  pub old_revision : ℤ
  pub lease_id : ℤ
  pub ttl : ℤ
  pub key : List ℕ
  pub value : List ℕ
  pub old_value : List ℕ

abbrev pub default_parameters : ActionParameters
default_parameters = record {
  with_prefix = false;
  revision = pos 0;
  old_revision = pos 0;
  lease_id = pos 0;
  ttl = pos 0;
  key = [];
  value = [];
  old_value = [];
}

-- `range_end.back() = ascii + 1`, as a `char`. `none`: the key is empty, and the code reads and writes
-- outside the string.
unfoldable pub range_end_of : List ℕ → Option (List ℕ)
range_end_of [] = none
range_end_of (b ∷ []) = some ((b + 1) % 256 ∷ [])
range_end_of (b ∷ c ∷ bs) = elim (range_end_of (c ∷ bs)) [ none ↦ none | some r ↦ some (b ∷ r) ]

-- The range end of a request: empty, for the key alone, unless a prefix is asked for.
unfoldable pub range_end_for : ActionParameters → Option (List ℕ)
range_end_for p = if p.with_prefix then range_end_of p.key else some []

-- What every ParseResponse does with a call that failed.
unfoldable pub parse_status : Status → V3Response → V3Response
parse_status ok response = response
parse_status (failed code message) response = set_error new_response code message

-- The comparison of the two conditional actions.
unfoldable pub compare_previous : Transaction → ActionParameters → AtomicityType → Transaction
unfolding init_compare_value init_compare_index
compare_previous t p prev_value = init_compare_value t p.old_value equal target_value
compare_previous t p prev_index = init_compare_index t p.old_revision equal target_mod
