-- ===== src/Channel/Pipeline/Finalizing.antt =====
-- What finalize() makes of a pipeline.
use provider_agent_proxy.Common.{◌≡◌, ap, ◌∙◌, true, false, ◌⊎◌, inl, inr, Bool-cases, reverse}
use provider_agent_proxy.Channel.Pipeline.{Pipeline, done, throws, and_then}
use provider_agent_proxy.Channel.Pipeline.Finalize.{
  link_out, set_front, set_back, finalize, attach_all,
}
use provider_agent_proxy.Channel.Pipeline.Directions.{
  joins_in, joins_out, link_in-fits, link_in-mismatch, link_out-fits, link_out-mismatch,
}
use provider_agent_proxy.Channel.Pipeline.Listing.{IsListed}
use provider_agent_proxy.Channel.Pipeline.Linking.{fits}
use provider_agent_proxy.Channel.Pipeline.Finalized.{
  inbound_linked, all_linked, finalized, IsFinalized, finalized-IsFinalized, out_types,
}

-- finalize() in the three cases of the types.
module _ (p : Pipeline) where
  pub finalize-fits :
      fits joins_in p.contexts p.in_ctxs ≡ true
      → fits joins_out p.contexts (reverse p.out_ctxs) ≡ true
      → finalize p ≡ done (finalized p)
  unfolding finalize and_then finalized all_linked inbound_linked
  finalize-fits ins outs =
      ap
        (λ o.
          and_then o
            (λ q. and_then (link_out (set_back q)) (λ r. done (attach_all (reverse r.ctxs) r))))
        (link_in-fits (set_front p) ins)
      ∙ ap (λ o. and_then o (λ r. done (attach_all (reverse r.ctxs) r)))
          (link_out-fits (set_back (inbound_linked p)) (out_types p ∙ outs))

  finalize-outbound_mismatch :
      fits joins_in p.contexts p.in_ctxs ≡ true
      → fits joins_out p.contexts (reverse p.out_ctxs) ≡ false
      → (q : Pipeline) × (finalize p ≡ throws "outbound type mismatch" q)
  unfolding finalize and_then inbound_linked
  finalize-outbound_mismatch ins outs =
      let (q, e) = link_out-mismatch (set_back (inbound_linked p)) (out_types p ∙ outs) in
      (
        q,
        ap
              (λ o.
                and_then o (λ q.
                  and_then (link_out (set_back q)) (λ r. done (attach_all (reverse r.ctxs) r))))
              (link_in-fits (set_front p) ins)
            ∙ ap (λ o. and_then o (λ r. done (attach_all (reverse r.ctxs) r))) e,
      )

  finalize-inbound_mismatch :
      fits joins_in p.contexts p.in_ctxs ≡ false
      → (q : Pipeline) × (finalize p ≡ throws "inbound type mismatch" q)
  unfolding finalize and_then
  finalize-inbound_mismatch ins =
      let (q, e) = link_in-mismatch (set_front p) ins in
      (
        q,
        ap
            (λ o.
              and_then o
                (λ q. and_then (link_out (set_back q)) (λ r. done (attach_all (reverse r.ctxs) r))))
            e,
      )

-- From a pipeline whose lists agree, finalize() either throws, since the types of two inbound or of
-- two outbound neighbours do not fit; or they all fit, and it returns. Then each inbound context is
-- linked to the next inbound context and the last to none, each outbound context to the outbound
-- context before it and the first to none, every handler is attached, the lists are as before, and
-- the ends are the first inbound and the last outbound context, if their types are those of the
-- pipeline.
pub finalize-IsFinalized :
    (p : Pipeline)
    → IsListed p
    → ((q : Pipeline) × (fits joins_in p.contexts p.in_ctxs ≡ true)
        × (fits joins_out p.contexts (reverse p.out_ctxs) ≡ true)
        × (finalize p ≡ done q)
        × IsFinalized p q)
      ⊎ ((q : Pipeline) × (fits joins_in p.contexts p.in_ctxs ≡ false)
          × (finalize p ≡ throws "inbound type mismatch" q))
      ⊎ ((q : Pipeline) × (fits joins_out p.contexts (reverse p.out_ctxs) ≡ false)
          × (finalize p ≡ throws "outbound type mismatch" q))
finalize-IsFinalized p l = elim (Bool-cases (fits joins_in p.contexts p.in_ctxs)) [
  | inl ins ↦ elim (Bool-cases (fits joins_out p.contexts (reverse p.out_ctxs))) [
    | inl outs ↦ inl (finalized p, ins, outs, finalize-fits p ins outs, finalized-IsFinalized p l)
    | inr outs ↦ let (q, e) = finalize-outbound_mismatch p ins outs in inr (inr (q, outs, e))
  ]
  | inr ins ↦ let (q, e) = finalize-inbound_mismatch p ins in inr (inl (q, ins, e))
]
