-- ===== src/Service/ServerDispatcher.antt =====
-- PipelinedServerDispatcher of wangle/service/ServerDispatcher.h. The map from numbers of requests to
-- responses is a function. The service is left out: `answer` gives the response to each request.
pub mod Order
pub mod Runs
use provider_agent_proxy.Common.{
  ℕ, zero, suc, ◌+◌, ◌-◌, ◌%◌, ◌^◌, List, [], ◌∷◌, ◌++◌, Option, none, some, update,
}

-- A request that comes in, and the callback with the response to the request of a number.
pub data Event : Type 0 where
  reads : Event
  responds : ℕ → Event

module _ (R : Type 0) where
  pub record PipelinedServerDispatcher : Type 0 where
    pub request_id : ℕ
    pub last_written_id : ℕ
    pub responses : ℕ → Option R

  abbrev pub new_dispatcher : PipelinedServerDispatcher
  new_dispatcher = record { request_id = 1; last_written_id = 0; responses = λ i. none }

  -- The number of the next response to be written.
  abbrev pub next_id : PipelinedServerDispatcher → ℕ
  next_id s = (s.last_written_id + 1) % 2 ^ 32

  abbrev pub written : PipelinedServerDispatcher → PipelinedServerDispatcher
  written s = record s {
    responses = update s.responses (next_id s) none;
    last_written_id = next_id s;
  }

  -- A round of the loop of sendResponses, with what `find` gives and with the other rounds.
  abbrev pub send_next :
      Option R
      → PipelinedServerDispatcher
      → PipelinedServerDispatcher × List R
      → PipelinedServerDispatcher × List R
  send_next none s (s', out) = (s, [])
  send_next (some resp) s (s', out) = (s', resp ∷ out)

  -- The loop of sendResponses, with the responses that it writes.
  unfoldable pub send_loop : ℕ → PipelinedServerDispatcher → PipelinedServerDispatcher × List R
  send_loop zero s = (s, [])
  send_loop (suc fuel) s = send_next (s.responses (next_id s)) s (send_loop fuel (written s))

  -- As many rounds as there are requests that have no response yet, and one more.
  unfoldable pub send_responses : PipelinedServerDispatcher → PipelinedServerDispatcher × List R
  unfolding send_loop
  send_responses s = send_loop ((s.request_id + 2 ^ 32 - s.last_written_id) % 2 ^ 32) s

  -- The part of `read` before the call of the service, and the callback for its response.
  unfoldable pub read : PipelinedServerDispatcher → PipelinedServerDispatcher
  read s = record s { request_id = (s.request_id + 1) % 2 ^ 32 }

  unfoldable pub respond : ℕ → R → PipelinedServerDispatcher → PipelinedServerDispatcher × List R
  unfolding send_responses
  respond request_id resp s =
      send_responses (record s { responses = update s.responses request_id (some resp) })

  unfoldable pub run :
      (ℕ → R) → List Event → PipelinedServerDispatcher → PipelinedServerDispatcher × List R
  unfolding read respond
  run answer [] s = (s, [])
  run answer (reads ∷ events) s = run answer events (read s)
  run answer (responds i ∷ events) s =
      let (s', out) = respond i (answer i) s in
      let (s'', rest) = run answer events s' in (s'', out ++ rest)
