-- ===== src/Channel/Pipeline/Finalize.antt =====
-- wangle/channel/Pipeline-inl.h: finalize(), which links and attaches, and detachHandlers().
use provider_agent_proxy.Common.{
  ℕ, Bool, false, ◌&&◌, List, [], ◌∷◌, Option, none, some, ◌==◌, if◌then◌else◌, update, reverse,
}
use provider_agent_proxy.Channel.Pipeline.{
  ContextImpl, Pipeline, Outcome, done, throws, and_then, takes_in, takes_out, attach_pipeline,
  detach_pipeline,
}

-- dynamic_cast<InboundLink<T>*> and dynamic_cast<OutboundLink<T>*>
abbrev pub is_inbound_link : ℕ → ContextImpl → Bool
is_inbound_link t x = takes_in x.type_of.dir && (x.type_of.rin == t)

abbrev pub is_outbound_link : ℕ → ContextImpl → Bool
is_outbound_link t x = takes_out x.type_of.dir && (x.type_of.win == t)

unfoldable pub set_next_in : ℕ → Option ℕ → Pipeline → Outcome
set_next_in c none p =
    done (record p { contexts = update p.contexts c (record (p.contexts c) { next_in = none }) })
set_next_in c (some d) p =
    if is_inbound_link (p.contexts c).type_of.rout (p.contexts d)
    then done
        (record p { contexts = update p.contexts c (record (p.contexts c) { next_in = some d }) })
    else throws "inbound type mismatch" p

unfoldable pub set_next_out : ℕ → Option ℕ → Pipeline → Outcome
set_next_out c none p =
    done (record p { contexts = update p.contexts c (record (p.contexts c) { next_out = none }) })
set_next_out c (some d) p =
    if is_outbound_link (p.contexts c).type_of.wout (p.contexts d)
    then done
        (record p { contexts = update p.contexts c (record (p.contexts c) { next_out = some d }) })
    else throws "outbound type mismatch" p

-- The loops of finalize(): each context is linked to the one after it, the last to none. The loop
-- over the outbound contexts goes from the last to the first.
unfoldable pub link_with : (ℕ → Option ℕ → Pipeline → Outcome) → List ℕ → Pipeline → Outcome
unfolding and_then
link_with set [] p = done p
link_with set (c ∷ []) p = set c none p
link_with set (c ∷ d ∷ cs) p = and_then (set c (some d) p) (λ q. link_with set (d ∷ cs) q)

unfoldable pub link_in : Pipeline → Outcome
unfolding set_next_in link_with
link_in p = link_with set_next_in p.in_ctxs p

unfoldable pub link_out : Pipeline → Outcome
unfolding set_next_out link_with
link_out p = link_with set_next_out (reverse p.out_ctxs) p

unfoldable pub attach_all : List ℕ → Pipeline → Pipeline
unfolding attach_pipeline
attach_all [] p = p
attach_all (c ∷ cs) p = attach_all cs (attach_pipeline c p)

-- The first context of a list, if it is a link of the type.
abbrev pub first_link : (ContextImpl → Bool) → (ℕ → ContextImpl) → List ℕ → Option ℕ
first_link test contexts [] = none
first_link test contexts (c ∷ cs) = if test (contexts c) then some c else none

abbrev pub set_front : Pipeline → Pipeline
set_front p = record p { front = first_link (is_inbound_link p.r_type) p.contexts p.in_ctxs }

abbrev pub set_back : Pipeline → Pipeline
set_back p = record p {
  back = first_link (is_outbound_link p.w_type) p.contexts (reverse p.out_ctxs);
}

unfoldable pub finalize : Pipeline → Outcome
unfolding link_in link_out attach_all and_then
finalize p =
    and_then (link_in (set_front p))
      (λ q. and_then (link_out (set_back q)) (λ r. done (attach_all (reverse r.ctxs) r)))

-- detachHandlers(), which the destructor of a pipeline that is not static runs.
abbrev pub is_owner : Option ℕ → ℕ → Bool
is_owner none c = false
is_owner (some o) c = c == o

unfoldable pub detach_loop : List ℕ → Pipeline → Pipeline
unfolding detach_pipeline
detach_loop [] p = p
detach_loop (c ∷ cs) p = detach_loop cs (if is_owner p.owner c then p else detach_pipeline c p)

unfoldable pub detach_handlers : Pipeline → Pipeline
unfolding detach_loop
detach_handlers p = detach_loop p.ctxs p
