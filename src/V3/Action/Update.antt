-- ===== src/V3/Action/Update.antt =====
-- wangle/v3: AsyncUpdateAction.
use provider_agent_proxy.Common.{if◌then◌else◌}
use provider_agent_proxy.Common.Int.{pos}
use provider_agent_proxy.V3.Messages.{greater, target_version, TxnRequest, TxnResponse, Status}
use provider_agent_proxy.V3.Response.{
  V3Response, new_response, set_error, set_action_of, parse_txn, update_action,
}
use provider_agent_proxy.V3.Transaction.{
  new_transaction, init_compare_version, setup_compare_and_swap_sequence,
}
use provider_agent_proxy.V3.Action.{ActionParameters, parse_status}

unfoldable pub request : ActionParameters → TxnRequest
unfolding init_compare_version setup_compare_and_swap_sequence
request p =
    let t = init_compare_version (new_transaction p.key) greater target_version in
    (setup_compare_and_swap_sequence t p.value p.lease_id).txn_request

unfoldable pub parse_response : ActionParameters → Status → TxnResponse → V3Response
unfolding parse_status
parse_response p status reply = parse_status status (
    if reply.succeeded
    then set_action_of (parse_txn p.with_prefix reply) update_action
    else set_error new_response (pos 100) "Key not found")
