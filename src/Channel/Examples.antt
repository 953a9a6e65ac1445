-- ===== src/Channel/Examples.antt =====
-- The output buffer on a few writes, and a small pipeline.
use provider_agent_proxy.Common.{
  ℕ, ◌*◌, ◌≡◌, ◌≢◌, ◌⊎◌, refl, true, false, List, [], ◌∷◌, ◌++◌, reverse, none, some, length,
  if◌then◌else◌, ◌==◌,
}
use provider_agent_proxy.Channel.OutputBuffering.{
  Event, writes, loop_ends, closes, new_handler, pending, run,
}
use provider_agent_proxy.Channel.OutputBuffering.Delivery.{
  IsQueueing, idle, settled, created, sent, given, run-settled, run-sent,
}
use provider_agent_proxy.Channel.Pipeline.{
  HandlerType, HandlerBase, dir_both, dir_in, dir_out, ContextImpl, Pipeline, done, throws,
  add_back, new_context,
}
use provider_agent_proxy.Channel.Pipeline.Events.{
  Fire, fire_in, fire_out, Outbound, msg_read, eof_read, exception_read, becomes_active,
  becomes_inactive, msg_write, closing, called, warned, returned, enter_front, enter_back, no_front,
  no_back,
}
use provider_agent_proxy.Channel.Pipeline.Removal.{remove_helper, remove_back}
use provider_agent_proxy.Channel.Pipeline.Finalize.{finalize, attach_all}
use provider_agent_proxy.Channel.Pipeline.Listing.{IsListed}
use provider_agent_proxy.Channel.Pipeline.Matching.{any, hit, kept, remove_helper-IsListed}
use provider_agent_proxy.Channel.Pipeline.Linking.{fits, linked}
use provider_agent_proxy.Channel.Pipeline.Directions.{joins_in, joins_out}
use provider_agent_proxy.Channel.Pipeline.Finalized.{finalized, IsFinalized}
use provider_agent_proxy.Channel.Pipeline.Finalizing.{finalize-fits, finalize-IsFinalized}
use provider_agent_proxy.Channel.Pipeline.Passage.{inward, outward}
use provider_agent_proxy.Channel.Pipeline.Order.{enter_front-inward, enter_back-outward}
use provider_agent_proxy.Channel.Pipeline.Building.{
  new_pipeline, Built, begun, added_back, Built-IsListed,
}
use provider_agent_proxy.Channel.Pipeline.Unattached.{add_back-remove_back}

abbrev two_writes : List Event
two_writes = writes 1 (97 ∷ []) ∷ writes 2 (98 ∷ []) ∷ loop_ends ∷ writes 3 (99 ∷ []) ∷ []

run-settled_example :
    (settled (run (two_writes ++ (closes ∷ [])) new_handler).1
        ++ (run (two_writes ++ (closes ∷ [])) new_handler).0.waiting
      ≡ [] ++ created (two_writes ++ (closes ∷ [])))
    × IsQueueing (run (two_writes ++ (closes ∷ [])) new_handler).0
run-settled_example = run-settled (two_writes ++ (closes ∷ [])) new_handler (idle refl)

run-sent_example :
    sent (run two_writes new_handler).1 ++ pending (run two_writes new_handler).0
    ≡ [] ++ given two_writes
run-sent_example = run-sent two_writes new_handler (idle refl) tt

-- A pipeline of a decoder, an encoder and a server, which answers a message by the same message.
abbrev decoder_type : HandlerType
decoder_type = record { class_of = 1; dir = dir_in; rin = 0; rout = 0; win = 0; wout = 0 }

abbrev encoder_type : HandlerType
encoder_type = record { class_of = 2; dir = dir_out; rin = 0; rout = 0; win = 0; wout = 0 }

abbrev server_type : HandlerType
server_type = record { class_of = 3; dir = dir_both; rin = 0; rout = 0; win = 0; wout = 0 }

abbrev unused_contexts : ℕ → ContextImpl
unused_contexts c = new_context decoder_type 0

abbrev unattached_handlers : ℕ → HandlerBase
unattached_handlers h = record { attach_count = 0; ctx = none }

abbrev empty_pipeline : Pipeline
empty_pipeline = new_pipeline 0 0 unattached_handlers unused_contexts

abbrev echo_pipeline : Pipeline
echo_pipeline =
    add_back server_type 12 (add_back encoder_type 11 (add_back decoder_type 10 empty_pipeline))

echo_Built : Built echo_pipeline
echo_Built =
    added_back server_type 12 (add_back encoder_type 11 (add_back decoder_type 10 empty_pipeline)) (
      added_back encoder_type 11 (add_back decoder_type 10 empty_pipeline)
        (added_back decoder_type 10 empty_pipeline (begun 0 0 unattached_handlers unused_contexts)))

abbrev echo_react : ℕ → Fire ℕ → List (Fire ℕ)
echo_react h (fire_in (msg_read m)) =
    if h == 12 then fire_out (msg_write m) ∷ [] else fire_in (msg_read m) ∷ []
echo_react h (fire_in eof_read) = fire_out closing ∷ []
echo_react h (fire_in (exception_read x)) = fire_out closing ∷ []
echo_react h (fire_in becomes_active) = fire_in becomes_active ∷ []
echo_react h (fire_in becomes_inactive) = fire_in becomes_inactive ∷ []
echo_react h (fire_out o) = fire_out o ∷ []

abbrev echo_passes : ℕ → Outbound ℕ → List (Outbound ℕ)
echo_passes h o = o ∷ []

echo_finalized : finalize echo_pipeline ≡ done (finalized echo_pipeline)
unfolding add_back
echo_finalized = finalize-fits echo_pipeline refl refl

echo_run :
    enter_front echo_react 6 (finalized echo_pipeline) (msg_read 7)
    ≡ returned (
        some (
          called 10 (fire_in (msg_read 7))
          ∷ called 12 (fire_in (msg_read 7))
          ∷ called 11 (fire_out (msg_write 7))
          ∷ warned (fire_out (msg_write 7))
          ∷ []))
unfolding add_back finalized enter_front attach_all linked
echo_run = refl

Built-IsListed_example : IsListed echo_pipeline
Built-IsListed_example = Built-IsListed echo_pipeline echo_Built

remove_helper-IsListed_example :
    ((q : Pipeline) × (any (hit 2 none echo_pipeline) echo_pipeline.ctxs ≡ true)
      × (remove_helper 2 none echo_pipeline ≡ done q)
      × IsListed q
      × (q.ctxs ≡ kept 2 none echo_pipeline echo_pipeline.ctxs))
    ⊎ ((any (hit 2 none echo_pipeline) echo_pipeline.ctxs ≡ false)
        × (remove_helper 2 none echo_pipeline ≡ throws "No such handler in pipeline" echo_pipeline))
remove_helper-IsListed_example =
    remove_helper-IsListed 2 none echo_pipeline (Built-IsListed echo_pipeline echo_Built)

finalize-IsFinalized_example :
    ((q : Pipeline) × (fits joins_in echo_pipeline.contexts echo_pipeline.in_ctxs ≡ true)
      × (fits joins_out echo_pipeline.contexts (reverse echo_pipeline.out_ctxs) ≡ true)
      × (finalize echo_pipeline ≡ done q)
      × IsFinalized echo_pipeline q)
    ⊎ ((q : Pipeline) × (fits joins_in echo_pipeline.contexts echo_pipeline.in_ctxs ≡ false)
        × (finalize echo_pipeline ≡ throws "inbound type mismatch" q))
    ⊎ ((q : Pipeline) × (fits joins_out echo_pipeline.contexts (reverse echo_pipeline.out_ctxs)
          ≡ false)
        × (finalize echo_pipeline ≡ throws "outbound type mismatch" q))
finalize-IsFinalized_example =
    finalize-IsFinalized echo_pipeline (Built-IsListed echo_pipeline echo_Built)

abbrev echo_linked : Pipeline
echo_linked = finalized echo_pipeline

enter_front-inward_example :
    ((echo_linked.front ≡ none)
      × (enter_front echo_react (2 * length echo_linked.ctxs) echo_linked (msg_read 7)
          ≡ no_front (msg_read 7)))
    ⊎ ((echo_linked.front ≢ none)
        × (enter_front echo_react (2 * length echo_linked.ctxs) echo_linked (msg_read 7)
            ≡ returned (
                some (
                  inward echo_react echo_passes echo_linked.contexts [] echo_linked.ctxs
                    (msg_read 7)))))
enter_front-inward_example =
    enter_front-inward echo_react echo_passes echo_pipeline echo_linked (msg_read 7) (λ h o. refl)
      (Built-IsListed echo_pipeline echo_Built) echo_finalized

enter_back-outward_example :
    ((echo_linked.back ≡ none)
      × (enter_back echo_react (length echo_linked.ctxs) echo_linked closing ≡ no_back closing))
    ⊎ ((echo_linked.back ≢ none)
        × (enter_back echo_react (length echo_linked.ctxs) echo_linked closing
            ≡ returned (
                some (
                  outward echo_react echo_passes echo_linked.contexts
                    (reverse echo_linked.ctxs)
                    closing))))
enter_back-outward_example =
    enter_back-outward echo_react echo_passes echo_pipeline echo_linked closing (λ h o. refl)
      (Built-IsListed echo_pipeline echo_Built) echo_finalized

-- A second pipeline with a handler that another one has attached.
abbrev shared_pipeline : Pipeline
shared_pipeline = new_pipeline 0 0 (λ h. record { attach_count = 1; ctx = some 5 }) unused_contexts

add_back-remove_back_example :
    (q : Pipeline) × (remove_back (add_back server_type 9 shared_pipeline) ≡ done q)
    × (q.ctxs ≡ [])
    × (q.handlers 9 ≡ record { attach_count = 0; ctx = none })
add_back-remove_back_example =
    add_back-remove_back server_type 9 0 shared_pipeline
      (Built-IsListed shared_pipeline
        (begun 0 0 (λ h. record { attach_count = 1; ctx = some 5 }) unused_contexts))
      refl
