-- ===== src/Channel/Pipeline/Unattached.antt =====
-- A handler that is added and removed again.
use mathlib.Core.List.{append-nil}
use provider_agent_proxy.Common.{
  ℕ, suc, ◌-◌, arith, ◌≡◌, refl, ap, ◌∙◌, List, [], ◌∷◌, ◌++◌, none, length, length-append,
  update-same, ◌+◌,
}
use provider_agent_proxy.Channel.Pipeline.{
  HandlerType, HandlerBase, Pipeline, done, add_back, detach_pipeline, detach_context, new_context,
}
use provider_agent_proxy.Channel.Pipeline.Removal.{remove_back, remove_at}
use provider_agent_proxy.Channel.Pipeline.Listing.{IsListed, add_back-IsListed, without}
use provider_agent_proxy.Channel.Pipeline.Removing.{
  take_next, rest_of, remove_at-listed, remove_back-cons,
}

remove_back-last :
    (p : Pipeline) (cs : List ℕ) (c : ℕ)
    → p.ctxs ≡ cs ++ (c ∷ [])
    → remove_back p ≡ remove_at (length cs) p
remove_back-last p [] c is = remove_back-cons p c [] is ∙ ap (λ l. remove_at (length l - 1) p) is
remove_back-last p (d ∷ cs) c is =
    remove_back-cons p d (cs ++ (c ∷ [])) is
    ∙ ap (λ l. remove_at (length l - 1) p) is
    ∙ ap (λ n. remove_at n p)
        (less_one (length (cs ++ (c ∷ []))) (length cs) (length-append cs (c ∷ [])))
  where
    less_one : (m n : ℕ) → m ≡ n + 1 → suc m - 1 ≡ suc n
    less_one m n h = omega arith

detach_context-suc :
    (x : HandlerBase) (n : ℕ)
    → x.attach_count ≡ suc n
    → detach_context x ≡ record { attach_count = n; ctx = none }
unfolding detach_context
detach_context-suc x n h = ground arith

-- In a pipeline whose lists agree: a handler that is attached elsewhere, is added at the back and is
-- removed again before finalize() loses one attachment and its context, though this pipeline never
-- attached it.
pub add_back-remove_back :
    (t : HandlerType) (h n : ℕ) (p : Pipeline)
    → IsListed p
    → (p.handlers h).attach_count ≡ suc n
    → (q : Pipeline) × (remove_back (add_back t h p) ≡ done q)
      × (q.ctxs ≡ p.ctxs)
      × (q.handlers h ≡ record { attach_count = n; ctx = none })
unfolding add_back detach_pipeline
add_back-remove_back t h n p l is =
    let r = add_back t h p in
    let c = p.next_id in
    let at_end = (take_next p.ctxs c []).0 in
    (
      without (length p.ctxs) c r,
      remove_back-last r p.ctxs c refl
          ∙ remove_at-listed (length p.ctxs) c r (add_back-IsListed t h p l) at_end,
      rest_of p.ctxs c [] r refl ∙ append-nil p.ctxs,
      rw
          (
            update-same p.contexts c (new_context t h),
            update-same p.handlers h (detach_context (p.handlers h)),
          )
          (detach_context-suc (p.handlers h) n is),
    )
