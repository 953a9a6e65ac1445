-- ===== src/V3/Action/Delete.antt =====
-- wangle/v3: AsyncDeleteAction.
use provider_agent_proxy.Common.{true, Option, none, some}
use provider_agent_proxy.V3.Messages.{DeleteRangeRequest, DeleteRangeResponse, Status}
use provider_agent_proxy.V3.Response.{V3Response, parse_delete_range}
use provider_agent_proxy.V3.Action.{ActionParameters, range_end_for, parse_status}

unfoldable pub request : ActionParameters → Option DeleteRangeRequest
request p = elim (range_end_for p) [
  | none ↦ none
  | some range_end ↦ some (record { key = p.key; range_end = range_end; prev_kv = true })
]

unfoldable pub parse_response : ActionParameters → Status → DeleteRangeResponse → V3Response
unfolding parse_status
parse_response p status reply = parse_status status (parse_delete_range p.with_prefix reply)
