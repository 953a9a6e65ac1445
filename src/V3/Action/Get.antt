-- ===== src/V3/Action/Get.antt =====
-- wangle/v3: AsyncGetAction.
use provider_agent_proxy.Common.{[], Option, none, some, if◌then◌else◌}
use provider_agent_proxy.V3.Messages.{by_key, unsorted, ascend, RangeRequest, RangeResponse, Status}
use provider_agent_proxy.V3.Response.{V3Response, parse_range}
use provider_agent_proxy.V3.Action.{ActionParameters, range_end_of, parse_status}

unfoldable pub request : ActionParameters → Option RangeRequest
request p =
    if p.with_prefix
    then (elim (range_end_of p.key) [
      | none ↦ none
      | some range_end ↦
          some (record {
            key = p.key;
            range_end = range_end;
            sort_target = by_key;
            sort_order = ascend;
          })
    ])
    else some (record { key = p.key; range_end = []; sort_target = by_key; sort_order = unsorted })

unfoldable pub parse_response : ActionParameters → Status → RangeResponse → V3Response
unfolding parse_status
parse_response p status reply = parse_status status (parse_range reply p.with_prefix)
