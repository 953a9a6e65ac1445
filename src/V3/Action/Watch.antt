-- ===== src/V3/Action/Watch.antt =====
-- wangle/v3: AsyncWatchAction (its loops are in V3.Watching).
use provider_agent_proxy.Common.{true, Option, none, some}
use provider_agent_proxy.V3.Messages.{WatchCreateRequest, WatchResponse, Status}
use provider_agent_proxy.V3.Response.{V3Response, parse_watch}
use provider_agent_proxy.V3.Action.{ActionParameters, range_end_for, parse_status}

unfoldable pub request : ActionParameters → Option WatchCreateRequest
request p = elim (range_end_for p) [
  | none ↦ none
  | some range_end ↦
      some
        (record { key = p.key; range_end = range_end; start_revision = p.revision; prev_kv = true })
]

unfoldable pub parse_response : Status → WatchResponse → V3Response
unfolding parse_status
parse_response status reply = parse_status status (parse_watch reply)
