-- ===== src/V3/Action/CompareAndDelete.antt =====
-- wangle/v3: AsyncCompareAndDeleteAction.
use provider_agent_proxy.Common.{Bool, not, if◌then◌else◌}
use provider_agent_proxy.Common.Int.{pos}
use provider_agent_proxy.V3.Messages.{TxnRequest, TxnResponse, Status}
use provider_agent_proxy.V3.Response.{
  V3Response, set_error, set_action_of, parse_txn, comparedelete_action,
}
use provider_agent_proxy.V3.Transaction.{
  new_transaction, setup_basic_failure_operation, setup_compare_and_delete_operation,
}
use provider_agent_proxy.V3.Action.{AtomicityType, ActionParameters, parse_status, compare_previous}

unfoldable pub request : ActionParameters → AtomicityType → TxnRequest
unfolding compare_previous setup_compare_and_delete_operation setup_basic_failure_operation
request p type =
    let t = compare_previous (new_transaction p.key) p type in
    let t' = setup_compare_and_delete_operation t p.key in
    (setup_basic_failure_operation t' p.key).txn_request

unfoldable pub finish : V3Response → Bool → V3Response
finish r succeeded = if not succeeded then set_error r (pos 101) "Compare failed" else r

unfoldable pub parse_response : ActionParameters → Status → TxnResponse → V3Response
unfolding parse_status finish
parse_response p status reply =
    parse_status status
      (finish (set_action_of (parse_txn p.with_prefix reply) comparedelete_action) reply.succeeded)
