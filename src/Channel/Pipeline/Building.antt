-- ===== src/Channel/Pipeline/Building.antt =====
-- The pipelines that the calls of a program build.
use provider_agent_proxy.Common.{
  ℕ, ◌≡◌, refl, sym, ap, ◌∙◌, subst, ◌<◌, [], Option, none, NoDup, All, inl, inr,
}
use provider_agent_proxy.Channel.Pipeline.{
  HandlerType, ContextImpl, HandlerBase, Pipeline, done, takes_in, takes_out, inbound_of,
  outbound_of, add_back, add_front,
}
use provider_agent_proxy.Channel.Pipeline.Removal.{remove_helper, remove_front, remove_back}
use provider_agent_proxy.Channel.Pipeline.Finalize.{finalize}
use provider_agent_proxy.Channel.Pipeline.Listing.{
  IsListed, add_back-IsListed, add_front-IsListed, of_dir-unchanged,
}
use provider_agent_proxy.Channel.Pipeline.Removing.{remove_ends-IsListed}
use provider_agent_proxy.Channel.Pipeline.Matching.{remove_helper-IsListed}
use provider_agent_proxy.Channel.Pipeline.Order.{done_inj, throws-ne-done, finalize-done}

-- Pipeline::create(), of the types R and W; the handlers are those that exist.
abbrev pub new_pipeline : ℕ → ℕ → (ℕ → HandlerBase) → (ℕ → ContextImpl) → Pipeline
new_pipeline r w handlers contexts = record {
  contexts = contexts;
  handlers = handlers;
  next_id = 0;
  r_type = r;
  w_type = w;
  ctxs = [];
  in_ctxs = [];
  out_ctxs = [];
  owner = none;
  front = none;
  back = none;
  attach_calls = [];
}

-- The pipelines after calls that return.
pub data Built : Pipeline → Type 0 where
  begun :
      (r w : ℕ) (handlers : ℕ → HandlerBase) (contexts : ℕ → ContextImpl)
      → Built (new_pipeline r w handlers contexts)
  added_back : (t : HandlerType) (h : ℕ) (p : Pipeline) → Built p → Built (add_back t h p)
  added_front : (t : HandlerType) (h : ℕ) (p : Pipeline) → Built p → Built (add_front t h p)
  removed :
      (k : ℕ) (wanted : Option ℕ) (p q : Pipeline)
      → Built p
      → remove_helper k wanted p ≡ done q
      → Built q
  removed_front : (p q : Pipeline) → Built p → remove_front p ≡ done q → Built q
  removed_back : (p q : Pipeline) → Built p → remove_back p ≡ done q → Built q
  finished : (p q : Pipeline) → Built p → finalize p ≡ done q → Built q

finalize-IsListed : (p q : Pipeline) → IsListed p → finalize p ≡ done q → IsListed q
finalize-IsListed p q l h =
    let k = finalize-done p q l h in
    record {
      ins =
          k.lists.1
          ∙ l.ins
          ∙ sym (
              of_dir-unchanged takes_in q.contexts p.contexts p.ctxs
                (λ c. ap (λ t. t.dir) (k.types c)))
          ∙ ap (inbound_of q.contexts) (sym k.lists.0);
      outs =
          k.lists.2
          ∙ l.outs
          ∙ sym (
              of_dir-unchanged takes_out q.contexts p.contexts p.ctxs
                (λ c. ap (λ t. t.dir) (k.types c)))
          ∙ ap (outbound_of q.contexts) (sym k.lists.0);
      distinct = subst NoDup (sym k.lists.0) l.distinct;
      made =
          subst (λ cs. All (λ c. c < q.next_id) cs) (sym k.lists.0)
            (subst (λ n. All (λ c. c < n) p.ctxs) (sym k.ids) l.made);
    }

remove_ends-done :
    (p q : Pipeline)
    → IsListed p
    → (remove_front p ≡ done q → IsListed q) × (remove_back p ≡ done q → IsListed q)
remove_ends-done p q l = elim (remove_ends-IsListed p l) [
  | inl (_, e, f) ↦ (
    (λ h. absurd (throws-ne-done "No handlers in pipeline" p q (sym e ∙ h))),
    (λ h. absurd (throws-ne-done "No handlers in pipeline" p q (sym f ∙ h))),
  )
  | inr (r, s, e, f, lr, ls, _, _) ↦ (
    (λ h. subst IsListed (done_inj r q (sym e ∙ h)) lr),
    (λ h. subst IsListed (done_inj s q (sym f ∙ h)) ls),
  )
]

remove_helper-done :
    (k : ℕ) (wanted : Option ℕ) (p q : Pipeline)
    → IsListed p
    → remove_helper k wanted p ≡ done q
    → IsListed q
remove_helper-done k wanted p q l h = elim (remove_helper-IsListed k wanted p l) [
  | inl (r, _, e, lr, _) ↦ subst IsListed (done_inj r q (sym e ∙ h)) lr
  | inr (_, e) ↦ absurd (throws-ne-done "No such handler in pipeline" p q (sym e ∙ h))
]

-- After any calls of addBack, addFront, remove, removeFront, removeBack and finalize that return, on a
-- new pipeline, the contexts of a pipeline are distinct, and the lists of inbound and of outbound
-- contexts are those of its contexts that have this direction, in the same order.
pub Built-IsListed : (p : Pipeline) → Built p → IsListed p
Built-IsListed p (begun r w handlers contexts) = record {
  ins = refl;
  outs = refl;
  distinct = tt;
  made = tt;
}
Built-IsListed p (added_back t h q b) = add_back-IsListed t h q (Built-IsListed q b)
Built-IsListed p (added_front t h q b) = add_front-IsListed t h q (Built-IsListed q b)
Built-IsListed p (removed k wanted q _ b h) = remove_helper-done k wanted q p (Built-IsListed q b) h
Built-IsListed p (removed_front q _ b h) = (remove_ends-done q p (Built-IsListed q b)).0 h
Built-IsListed p (removed_back q _ b h) = (remove_ends-done q p (Built-IsListed q b)).1 h
Built-IsListed p (finished q _ b h) = finalize-IsListed q p (Built-IsListed q b) h
