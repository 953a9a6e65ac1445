-- ===== src/V3/Action/LeaseGrant.antt =====
-- wangle/v3: AsyncLeaseGrantAction.
use provider_agent_proxy.Common.{[]}
use provider_agent_proxy.V3.Messages.{LeaseGrantRequest, LeaseGrantResponse, Status}
use provider_agent_proxy.V3.Response.{V3Response, parse_lease_grant}
use provider_agent_proxy.V3.Transaction.{new_transaction, setup_lease_grant_operation}
use provider_agent_proxy.V3.Action.{ActionParameters, parse_status}

unfoldable pub request : ActionParameters → LeaseGrantRequest
unfolding setup_lease_grant_operation
request p = (setup_lease_grant_operation (new_transaction []) p.ttl).leasegrant_request

unfoldable pub parse_response : ActionParameters → Status → LeaseGrantResponse → V3Response
unfolding parse_status
parse_response p status reply = parse_status status (parse_lease_grant reply)
