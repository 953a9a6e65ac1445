-- ===== src/Channel/Pipeline/Directions.antt =====
-- The links of each direction.
use provider_agent_proxy.Common.{ℕ, ◌≡◌, refl, Bool, true, false, List, [], ◌∷◌, Option, reverse}
use provider_agent_proxy.Channel.Pipeline.{ContextImpl, Pipeline, done, throws}
use provider_agent_proxy.Channel.Pipeline.Finalize.{
  link_in, link_out, set_next_in, set_next_out, is_inbound_link, is_outbound_link,
}
use provider_agent_proxy.Channel.Pipeline.Linking.{
  fits, moved, linked, link_with-fits, link_with-mismatch,
}

-- The two directions of the links.
abbrev pub put_in : Option ℕ → ContextImpl → ContextImpl
put_in o x = record x { next_in = o }

abbrev pub put_out : Option ℕ → ContextImpl → ContextImpl
put_out o x = record x { next_out = o }

abbrev pub joins_in : ContextImpl → ContextImpl → Bool
joins_in x y = is_inbound_link x.type_of.rout y

abbrev pub joins_out : ContextImpl → ContextImpl → Bool
joins_out x y = is_outbound_link x.type_of.wout y

pub link_in-fits :
    (p : Pipeline)
    → fits joins_in p.contexts p.in_ctxs ≡ true
    → link_in p ≡ done (record p { contexts = linked put_in p.in_ctxs p.contexts })
unfolding link_in set_next_in moved
link_in-fits p h =
    link_with-fits set_next_in put_in joins_in "inbound type mismatch" (λ o x. refl)
      (λ x y x' y' e f. rw (e, f) refl) (λ c q. refl) (λ c d q k. rw (set_next_in, k) refl)
      (λ c d q k. rw (set_next_in, k) refl) p.in_ctxs p h

pub link_in-mismatch :
    (p : Pipeline)
    → fits joins_in p.contexts p.in_ctxs ≡ false
    → (q : Pipeline) × (link_in p ≡ throws "inbound type mismatch" q)
unfolding link_in set_next_in moved
link_in-mismatch p h =
    link_with-mismatch set_next_in put_in joins_in "inbound type mismatch" (λ o x. refl)
      (λ x y x' y' e f. rw (e, f) refl) (λ c q. refl) (λ c d q k. rw (set_next_in, k) refl)
      (λ c d q k. rw (set_next_in, k) refl) p.in_ctxs p h

pub link_out-fits :
    (p : Pipeline)
    → fits joins_out p.contexts (reverse p.out_ctxs) ≡ true
    → link_out p ≡ done (record p { contexts = linked put_out (reverse p.out_ctxs) p.contexts })
unfolding link_out set_next_out moved
link_out-fits p h =
    link_with-fits set_next_out put_out joins_out "outbound type mismatch" (λ o x. refl)
      (λ x y x' y' e f. rw (e, f) refl) (λ c q. refl) (λ c d q k. rw (set_next_out, k) refl)
      (λ c d q k. rw (set_next_out, k) refl) (reverse p.out_ctxs) p h

pub link_out-mismatch :
    (p : Pipeline)
    → fits joins_out p.contexts (reverse p.out_ctxs) ≡ false
    → (q : Pipeline) × (link_out p ≡ throws "outbound type mismatch" q)
unfolding link_out set_next_out moved
link_out-mismatch p h =
    link_with-mismatch set_next_out put_out joins_out "outbound type mismatch" (λ o x. refl)
      (λ x y x' y' e f. rw (e, f) refl) (λ c q. refl) (λ c d q k. rw (set_next_out, k) refl)
      (λ c d q k. rw (set_next_out, k) refl) (reverse p.out_ctxs) p h

pub fits-types :
    (joins : ContextImpl → ContextImpl → Bool) (new old : ℕ → ContextImpl)
    → ((x y x' y' : ContextImpl)
        → x.type_of ≡ x'.type_of
        → y.type_of ≡ y'.type_of
        → joins x y ≡ joins x' y')
    → ((c : ℕ) → (new c).type_of ≡ (old c).type_of)
    → (cs : List ℕ) → fits joins new cs ≡ fits joins old cs
fits-types joins new old h k [] = refl
fits-types joins new old h k (c ∷ []) = refl
fits-types joins new old h k (c ∷ d ∷ cs) =
    rw (h (new c) (new d) (old c) (old d) (k c) (k d), fits-types joins new old h k (d ∷ cs)) refl
