-- ===== src/V3/Watching/Loops.antt =====
-- What the two loops of the watch action call and deliver.
use provider_agent_proxy.Common.{
  Bool, true, false, List, [], ◌∷◌, if◌then◌else◌, ◌≡◌, refl, map, ap,
}
use provider_agent_proxy.V3.Messages.{WatchResponse, ok}
use provider_agent_proxy.V3.Response.{V3Response}
use provider_agent_proxy.V3.Action.Watch
use provider_agent_proxy.V3.Watching.{
  Tag, create_tag, write_tag, this_tag, writes_done_tag, Completion, StreamCall, writes_done, read,
  WatchAction, has_events, Waited, stopped, call_before, callback_before, wait_round,
  wait_for_response, cancelled_by, callback_round, wait_with_callback,
}

-- The replies of the reads that complete before a completion fails.
abbrev pub read_reply : Tag → WatchResponse → List WatchResponse → List WatchResponse
read_reply this_tag reply rs = reply ∷ rs
read_reply create_tag reply rs = rs
read_reply write_tag reply rs = rs
read_reply writes_done_tag reply rs = rs

abbrev pub completed_reads : List Completion → List WatchResponse
completed_reads [] = []
completed_reads (c ∷ cs) = if c.success then read_reply c.tag c.reply (completed_reads cs) else []

-- The same, but only up to the completion of `WritesDone`.
abbrev pub until_done : Tag → List WatchResponse → List WatchResponse
until_done writes_done_tag rs = []
until_done this_tag rs = rs
until_done create_tag rs = rs
until_done write_tag rs = rs

abbrev pub reads_until_done : List Completion → List WatchResponse
reads_until_done [] = []
reads_until_done (c ∷ cs) =
    if c.success then until_done c.tag (read_reply c.tag c.reply (reads_until_done cs)) else []

abbrev pub with_events : List WatchResponse → List WatchResponse
with_events [] = []
with_events (r ∷ rs) = if has_events r then r ∷ with_events rs else with_events rs

abbrev pub parse : WatchResponse → V3Response
parse reply = Watch.parse_response ok reply

abbrev pub read_again : WatchResponse → StreamCall
read_again reply = read

-- What a loop has to do after the reads `rs`.
pub record Delivers (w : Waited) (rs : List WatchResponse) : Type 0 where
  pub callbacks : w.callbacks ≡ map parse (with_events rs)
  pub calls : w.calls ≡ map read_again rs

callbacks_of_round :
    (b : Bool) (reply : WatchResponse) (rest : Waited) (rs : List WatchResponse)
    → rest.callbacks ≡ map parse (with_events rs)
    → (if b
        then callback_before (parse reply) (call_before read rest)
        else call_before read rest).callbacks
      ≡ map parse (if b then reply ∷ with_events rs else with_events rs)
callbacks_of_round true reply rest rs e = ap (◌∷◌ (parse reply)) e
callbacks_of_round false reply rest rs e = e

calls_of_round :
    (b : Bool) (reply : WatchResponse) (rest : Waited) (rs : List WatchResponse)
    → rest.calls ≡ map read_again rs
    → (if b
        then callback_before (parse reply) (call_before read rest)
        else call_before read rest).calls
      ≡ map read_again (reply ∷ rs)
calls_of_round true reply rest rs e = ap (◌∷◌ read) e
calls_of_round false reply rest rs e = ap (◌∷◌ read) e

callback_round-Delivers :
    (tag : Tag) (reply : WatchResponse) (rest : Waited) (rs : List WatchResponse)
    → Delivers rest rs
    → Delivers (callback_round tag reply rest) (read_reply tag reply rs)
unfolding callback_round
callback_round-Delivers this_tag reply rest rs d = record {
  callbacks = callbacks_of_round (has_events reply) reply rest rs d.callbacks;
  calls = calls_of_round (has_events reply) reply rest rs d.calls;
}
callback_round-Delivers create_tag reply rest rs d = d
callback_round-Delivers write_tag reply rest rs d = d
callback_round-Delivers writes_done_tag reply rest rs d = d

choose-Delivers :
    (b : Bool) (w w' : Waited) (rs : List WatchResponse)
    → Delivers w rs
    → Delivers w' []
    → Delivers (if b then w else w') (if b then rs else [])
choose-Delivers true w w' rs d d' = d
choose-Delivers false w w' rs d d' = d'

-- The loop with a callback delivers each response with events that a completed read brought, in
-- order and once, until a completion fails, and it asks for one more read after each completed read.
pub wait_with_callback-Delivers :
    (a : WatchAction) (cs : List Completion)
    → Delivers (wait_with_callback a cs) (completed_reads cs)
unfolding wait_with_callback
wait_with_callback-Delivers a [] = record { callbacks = refl; calls = refl }
wait_with_callback-Delivers a (c ∷ cs) =
    let next = record a { reply = c.reply; is_cancelled = cancelled_by c.tag a.is_cancelled } in
    choose-Delivers c.success _ (stopped (record a { reply = c.reply })) _
      (callback_round-Delivers c.tag c.reply _ _ (wait_with_callback-Delivers next cs))
      (record { callbacks = refl; calls = refl })

-- The call that the loop without a callback makes after a read.
abbrev pub close_or_read : WatchResponse → StreamCall
close_or_read reply = if has_events reply then writes_done else read

abbrev Calls : Waited → List WatchResponse → Type 0
Calls w rs = (w.calls ≡ map close_or_read rs) × (w.callbacks ≡ [])

this_round :
    (b : Bool) (rest : Waited) (cs : List StreamCall)
    → (rest.calls ≡ cs) × (rest.callbacks ≡ [])
    → ((if b then call_before writes_done rest else call_before read rest).calls
        ≡ (if b then writes_done else read) ∷ cs)
      × ((if b then call_before writes_done rest else call_before read rest).callbacks ≡ [])
this_round true rest cs e = (ap (◌∷◌ writes_done) e.0, e.1)
this_round false rest cs e = (ap (◌∷◌ read) e.0, e.1)

wait_round-Calls :
    (tag : Tag) (reply : WatchResponse) (a : WatchAction) (rest : Waited) (rs : List WatchResponse)
    → Calls rest rs
    → Calls (wait_round tag reply (stopped a) rest) (until_done tag (read_reply tag reply rs))
unfolding wait_round
wait_round-Calls this_tag reply a rest rs e =
    this_round (has_events reply) rest (map close_or_read rs) e
wait_round-Calls create_tag reply a rest rs e = e
wait_round-Calls write_tag reply a rest rs e = e
wait_round-Calls writes_done_tag reply a rest rs e = (refl, refl)

choose-Calls :
    (b : Bool) (w : Waited) (a : WatchAction) (rs : List WatchResponse)
    → Calls w rs
    → Calls (if b then w else stopped a) (if b then rs else [])
choose-Calls true w a rs e = e
choose-Calls false w a rs e = (refl, refl)

-- The loop without a callback, until the completion of `WritesDone` or a failure, asks to read again
-- after each read without events, and closes the stream after one with events; it calls nobody back.
pub wait_for_response-calls :
    (a : WatchAction) (cs : List Completion)
    → ((wait_for_response a cs).calls ≡ map close_or_read (reads_until_done cs))
      × ((wait_for_response a cs).callbacks ≡ [])
unfolding wait_for_response
wait_for_response-calls a [] = (refl, refl)
wait_for_response-calls a (c ∷ cs) =
    let a' = record a { reply = c.reply } in
    choose-Calls c.success _ a' _
      (wait_round-Calls c.tag c.reply a' _ _ (wait_for_response-calls a' cs))
