-- ===== src/V3/Action/Set.antt =====
-- wangle/v3: AsyncSetAction.
use provider_agent_proxy.Common.{Bool, String, not, ◌&&◌, if◌then◌else◌}
use provider_agent_proxy.Common.Int.{pos}
use text.Mathlib.Text.{◌==◌ as str_eq}
use provider_agent_proxy.V3.Messages.{equal, target_version, TxnRequest, TxnResponse, Status}
use provider_agent_proxy.V3.Response.{
  V3Response, set_error, set_action_of, parse_txn, create_action, set_action,
}
use provider_agent_proxy.V3.Transaction.{
  new_transaction, init_compare_version, setup_basic_failure_operation, setup_set_failure_operation,
  setup_basic_create_sequence,
}
use provider_agent_proxy.V3.Action.{ActionParameters, parse_status}

unfoldable pub request : ActionParameters → Bool → TxnRequest
unfolding init_compare_version setup_basic_create_sequence setup_basic_failure_operation
    setup_set_failure_operation
request p is_create =
    let t = init_compare_version (new_transaction p.key) equal target_version in
    let t' = setup_basic_create_sequence t p.key p.value p.lease_id in
    let t'' =
      if is_create
      then setup_basic_failure_operation t' p.key
      else setup_set_failure_operation t' p.key p.value p.lease_id in
    t''.txn_request

abbrev pub action_of : Bool → String
action_of is_create = if is_create then create_action else set_action

unfoldable pub finish : V3Response → Bool → String → V3Response
finish r succeeded action =
    if not succeeded && str_eq action create_action
    then set_error r (pos 105) "Key already exists"
    else r

unfoldable pub parse_response : ActionParameters → Bool → Status → TxnResponse → V3Response
unfolding parse_status finish
parse_response p is_create status reply =
    let action = action_of is_create in
    parse_status status
      (finish (set_action_of (parse_txn p.with_prefix reply) action) reply.succeeded action)
