-- ===== src/V3/Watching.antt =====
-- wangle/v3: the loops of AsyncWatchAction over its completion queue.
pub mod Loops
use provider_agent_proxy.Common.{
  ℕ, Bool, true, false, not, List, [], ◌∷◌, ◌++◌, if◌then◌else◌, ◌≡◌, refl, map, ap,
}
use provider_agent_proxy.V3.Messages.{WatchResponse, WatchEvent, Status, ok}
use provider_agent_proxy.V3.Response.{V3Response}
use provider_agent_proxy.V3.Action.Watch

-- The tags under which the queue reports: those of the constructor's calls, the action itself for a
-- read, and the one of `WritesDone`.
pub data Tag : Type 0 where
  create_tag write_tag this_tag writes_done_tag : Tag

-- What `cq_.Next` reports, with the contents of `reply` at that time. The list of completions ends
-- where `Next` returns false.
pub record Completion : Type 0 where
  pub tag : Tag
  pub success : Bool
  pub reply : WatchResponse

-- The calls on the stream.
pub data StreamCall : Type 0 where
  writes_done read : StreamCall

pub record WatchAction : Type 0 where
  pub reply : WatchResponse
  pub is_cancelled : Bool

abbrev pub has_events : WatchResponse → Bool
has_events r = elim r.events [ [] ↦ false | e ∷ es ↦ true ]

-- The action after a loop, the calls that it made on the stream, and its callbacks.
pub record Waited : Type 0 where
  pub action : WatchAction
  pub calls : List StreamCall
  pub callbacks : List V3Response

abbrev pub stopped : WatchAction → Waited
stopped a = record { action = a; calls = []; callbacks = [] }

abbrev pub call_before : StreamCall → Waited → Waited
call_before c w = record w { calls = c ∷ w.calls }

abbrev pub callback_before : V3Response → Waited → Waited
callback_before r w = record w { callbacks = r ∷ w.callbacks }

-- A round of the loop whose completion has succeeded, with the rest of the loop as an argument.
unfoldable pub wait_round : Tag → WatchResponse → Waited → Waited → Waited
wait_round writes_done_tag reply here rest = here
wait_round this_tag reply here rest =
    if has_events reply then call_before writes_done rest else call_before read rest
wait_round create_tag reply here rest = rest
wait_round write_tag reply here rest = rest

-- waitForResponse()
unfoldable pub wait_for_response : WatchAction → List Completion → Waited
unfolding wait_round
wait_for_response a [] = stopped a
wait_for_response a (c ∷ cs) =
    let a' = record a { reply = c.reply } in
    let rest = wait_for_response a' cs in
    if c.success then wait_round c.tag c.reply (stopped a') rest else stopped a'

-- CancelWatch()
unfoldable pub cancel_watch : WatchAction → List StreamCall
cancel_watch a = if a.is_cancelled then [] else writes_done ∷ []

-- The flag after a completion.
abbrev pub cancelled_by : Tag → Bool → Bool
cancelled_by writes_done_tag b = true
cancelled_by create_tag b = b
cancelled_by write_tag b = b
cancelled_by this_tag b = b

unfoldable pub callback_round : Tag → WatchResponse → Waited → Waited
callback_round this_tag reply rest =
    let more = call_before read rest in
    if has_events reply then callback_before (Watch.parse_response ok reply) more else more
callback_round writes_done_tag reply rest = rest
callback_round create_tag reply rest = rest
callback_round write_tag reply rest = rest

-- waitForResponse(callback). The status of the call is only known at its end, and is OK until then.
unfoldable pub wait_with_callback : WatchAction → List Completion → Waited
unfolding callback_round
wait_with_callback a [] = stopped a
wait_with_callback a (c ∷ cs) =
    let next = record a { reply = c.reply; is_cancelled = cancelled_by c.tag a.is_cancelled } in
    let rest = wait_with_callback next cs in
    if c.success then callback_round c.tag c.reply rest else stopped (record a { reply = c.reply })
