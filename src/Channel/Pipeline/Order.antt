-- ===== src/Channel/Pipeline/Order.antt =====
-- The order in which the functions of a finalized pipeline visit its handlers.
use provider_agent_proxy.Common.{
  ℕ, ◌*◌, arith, ◌≡◌, ◌≢◌, ◌⊎◌, select-reverse, length-reverse, refl, sym, ap, subst, ◌∙◌, Bool,
  List, [], ◌∷◌, map, reverse, none, some, String, head, length, inl, inr, Option-cases,
}
use provider_agent_proxy.Channel.Pipeline.{
  ContextImpl, Pipeline, dir_at, takes_in, takes_out, inbound_of, outbound_of,
}
use provider_agent_proxy.Channel.Pipeline.Events.{
  Inbound, Outbound, Fire, fire_in, fire_out, end_or, deliver, returned, enter_front, enter_back,
  no_front, no_back,
}
use provider_agent_proxy.Channel.Pipeline.Linking.{Chained}
use provider_agent_proxy.Channel.Pipeline.Passage.{inward, outward}
use provider_agent_proxy.Channel.Pipeline.{done, throws, check_fails}
use provider_agent_proxy.Channel.Pipeline.Finalize.{
  finalize, first_link, is_inbound_link, is_outbound_link,
}
use provider_agent_proxy.Channel.Pipeline.Finalized.{IsFinalized}
use provider_agent_proxy.Channel.Pipeline.Finalizing.{finalize-IsFinalized}
use provider_agent_proxy.Channel.Pipeline.Listing.{IsListed, of_dir-unchanged}
use provider_agent_proxy.Channel.Pipeline.Delivery.{deliver-inward, deliver-outward}

pub done_inj : (q r : Pipeline) → done q ≡ done r → q ≡ r
done_inj q r h = ap (λ o. elim o [ done p ↦ p | throws e p ↦ p | check_fails ↦ q ]) h

pub throws-ne-done : (e : String) (q r : Pipeline) → throws e q ≢ done r
throws-ne-done e q r h = ground arith

pub finalize-done : (p q : Pipeline) → IsListed p → finalize p ≡ done q → IsFinalized p q
finalize-done p q l h = elim (finalize-IsFinalized p l) [
  | inl (r, _, _, e, k) ↦ subst (IsFinalized p) (done_inj r q (sym e ∙ h)) k
  | inr (inl (r, _, e)) ↦ absurd (throws-ne-done "inbound type mismatch" r q (sym e ∙ h))
  | inr (inr (r, _, e)) ↦ absurd (throws-ne-done "outbound type mismatch" r q (sym e ∙ h))
]

some-ne-none : {A : Type 0} (a : A) → some a ≢ none
some-ne-none a h = ground arith

module _ {M : Type 0} (react : ℕ → Fire M → List (Fire M)) (n : ℕ) (q : Pipeline) where
  enter_front-none : (i : Inbound M) → q.front ≡ none → enter_front react n q i ≡ no_front i
  unfolding enter_front
  enter_front-none i is = rw (enter_front, is) refl

  enter_front-some :
      (i : Inbound M) (c : ℕ)
      → q.front ≡ some c
      → enter_front react n q i ≡ returned (deliver react n q.contexts c (fire_in i))
  unfolding enter_front
  enter_front-some i c is = simp (is, enter_front)

  enter_back-none : (o : Outbound M) → q.back ≡ none → enter_back react n q o ≡ no_back o
  unfolding enter_back
  enter_back-none o is = rw (enter_back, is) refl

  enter_back-some :
      (o : Outbound M) (c : ℕ)
      → q.back ≡ some c
      → enter_back react n q o ≡ returned (deliver react n q.contexts c (fire_out o))
  unfolding enter_back
  enter_back-some o c is = simp (is, enter_back)

first_link-head :
    (test : ContextImpl → Bool) (contexts : ℕ → ContextImpl) (cs : List ℕ) (c : ℕ)
    → first_link test contexts cs ≡ some c
    → head cs ≡ some c
first_link-head test contexts [] c h = h
first_link-head test contexts (d ∷ cs) c h = ground arith

-- The lists of a finalized pipeline, by the directions of its own contexts.
module _ (p q : Pipeline) (l : IsListed p) (k : IsFinalized p q) where
  ins-of : p.in_ctxs ≡ inbound_of q.contexts q.ctxs
  ins-of =
      l.ins
      ∙ sym (
          of_dir-unchanged takes_in q.contexts p.contexts p.ctxs (λ c. ap (λ t. t.dir) (k.types c)))
      ∙ ap (inbound_of q.contexts) (sym k.lists.0)

  outs-of : reverse p.out_ctxs ≡ outbound_of q.contexts (reverse q.ctxs)
  outs-of =
      ap reverse (
        l.outs
        ∙ sym (
            of_dir-unchanged takes_out q.contexts p.contexts p.ctxs
              (λ c. ap (λ t. t.dir) (k.types c)))
        ∙ ap (outbound_of q.contexts) (sym k.lists.0))
      ∙ select-reverse (λ c. takes_out (dir_at q.contexts c)) q.ctxs

  -- The first link is the first context of its direction.
  front-links : (c : ℕ) → q.front ≡ some c → head (inbound_of q.contexts q.ctxs) ≡ some c
  front-links c h =
      ap head (sym ins-of)
      ∙ first_link-head (is_inbound_link p.r_type) p.contexts p.in_ctxs c (sym k.front_is ∙ h)

  back-links : (c : ℕ) → q.back ≡ some c → head (outbound_of q.contexts (reverse q.ctxs)) ≡ some c
  back-links c h =
      ap head (sym outs-of)
      ∙ first_link-head (is_outbound_link p.w_type) p.contexts (reverse p.out_ctxs) c
          (sym k.back_is ∙ h)

  Chained-ins : Chained (λ c. (q.contexts c).next_in) (inbound_of q.contexts q.ctxs)
  Chained-ins = subst (Chained (λ c. (q.contexts c).next_in)) ins-of k.next_ins

  Chained-outs : Chained (λ c. (q.contexts c).next_out) (outbound_of q.contexts (reverse q.ctxs))
  Chained-outs = subst (Chained (λ c. (q.contexts c).next_out)) outs-of k.next_outs

-- Let handlers fire outbound events only (those of `passes`) when an outbound event reaches them,
-- and let finalize() have returned, from a pipeline whose lists agree. Then read, readEOF,
-- readException and the two transport events: without a first inbound link they throw, or do nothing
-- for the transport events; and otherwise an amount of fuel, twice the number of contexts, is enough
-- for the event to visit the inbound contexts from the first to the last, while the outbound events
-- that a handler fires visit the outbound contexts before it, from the nearest to the first.
pub enter_front-inward :
    {M : Type 0} (react : ℕ → Fire M → List (Fire M)) (passes : ℕ → Outbound M → List (Outbound M))
    (p q : Pipeline) (i : Inbound M)
    → ((h : ℕ) (o : Outbound M) → react h (fire_out o) ≡ map fire_out (passes h o))
    → IsListed p
    → finalize p ≡ done q
    → ((q.front ≡ none) × (enter_front react (2 * length q.ctxs) q i ≡ no_front i))
      ⊎ ((q.front ≢ none)
          × (enter_front react (2 * length q.ctxs) q i
              ≡ returned (some (inward react passes q.contexts [] q.ctxs i))))
enter_front-inward react passes p q i passes-on l h = elim (Option-cases q.front) [
  | inl is ↦ inl (is, enter_front-none react (2 * length q.ctxs) q i is)
  | inr (c, is) ↦ inr (
    (λ e. some-ne-none c (sym is ∙ e)),
    enter_front-some react (2 * length q.ctxs) q i c is
        ∙ ap returned (
            ap (end_or (deliver react (2 * length q.ctxs) q.contexts) (fire_in i))
              (sym (front-links p q l k c is))
            ∙ deliver-inward react passes q.contexts passes-on (2 * length q.ctxs) [] q.ctxs i
                (Chained-ins p q l k) (Chained-outs p q l k) (omega arith)),
  )
]
  where
    k : IsFinalized p q
    k = finalize-done p q l h

-- Let handlers fire outbound events only (those of `passes`) when an outbound event reaches them,
-- and let finalize() have returned, from a pipeline whose lists agree. Then write, writeException and
-- close: without a last outbound link they throw; and otherwise an amount of fuel, the number of
-- contexts, is enough for the event to visit the outbound contexts from the last to the first.
pub enter_back-outward :
    {M : Type 0} (react : ℕ → Fire M → List (Fire M)) (passes : ℕ → Outbound M → List (Outbound M))
    (p q : Pipeline) (o : Outbound M)
    → ((h : ℕ) (o' : Outbound M) → react h (fire_out o') ≡ map fire_out (passes h o'))
    → IsListed p
    → finalize p ≡ done q
    → ((q.back ≡ none) × (enter_back react (length q.ctxs) q o ≡ no_back o))
      ⊎ ((q.back ≢ none)
          × (enter_back react (length q.ctxs) q o
              ≡ returned (some (outward react passes q.contexts (reverse q.ctxs) o))))
enter_back-outward react passes p q o passes-on l h = elim (Option-cases q.back) [
  | inl is ↦ inl (is, enter_back-none react (length q.ctxs) q o is)
  | inr (c, is) ↦ inr (
    (λ e. some-ne-none c (sym is ∙ e)),
    enter_back-some react (length q.ctxs) q o c is
        ∙ ap returned (
            ap (end_or (deliver react (length q.ctxs) q.contexts) (fire_out o))
              (sym (back-links p q l k c is))
            ∙ deliver-outward react passes q.contexts passes-on (length q.ctxs) (reverse q.ctxs) o
                (Chained-outs p q l k) (omega (arith, length-reverse q.ctxs))),
  )
]
  where
    k : IsFinalized p q
    k = finalize-done p q l h
