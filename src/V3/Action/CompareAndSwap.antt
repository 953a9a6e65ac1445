-- ===== src/V3/Action/CompareAndSwap.antt =====
-- wangle/v3: AsyncCompareAndSwapAction.
use provider_agent_proxy.Common.{Bool, not, ◌&&◌, if◌then◌else◌}
use provider_agent_proxy.Common.Int.{pos, eqb}
use provider_agent_proxy.V3.Messages.{TxnRequest, TxnResponse, Status}
use provider_agent_proxy.V3.Response.{
  V3Response, set_error, set_action_of, parse_txn, compareswap_action,
}
use provider_agent_proxy.V3.Transaction.{
  new_transaction, setup_basic_failure_operation, setup_compare_and_swap_sequence,
}
use provider_agent_proxy.V3.Action.{AtomicityType, ActionParameters, parse_status, compare_previous}

unfoldable pub request : ActionParameters → AtomicityType → TxnRequest
unfolding compare_previous setup_basic_failure_operation setup_compare_and_swap_sequence
request p type =
    let t = compare_previous (new_transaction p.key) p type in
    let t' = setup_basic_failure_operation t p.key in
    (setup_compare_and_swap_sequence t' p.value p.lease_id).txn_request

unfoldable pub finish : V3Response → Bool → V3Response
finish r succeeded =
    if not succeeded && eqb r.error_code (pos 0) then set_error r (pos 101) "Compare failed" else r

unfoldable pub parse_response : ActionParameters → Status → TxnResponse → V3Response
unfolding parse_status finish
parse_response p status reply =
    parse_status status
      (finish (set_action_of (parse_txn p.with_prefix reply) compareswap_action) reply.succeeded)
