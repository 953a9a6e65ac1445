-- ===== src/Channel/Pipeline/Removal.antt =====
-- wangle/channel/Pipeline.cpp and Pipeline-inl.h: the removal of contexts, and how one is found.
use provider_agent_proxy.Common.{
  ℕ, zero, suc, ◌-◌, Bool, true, false, ◌&&◌, List, [], ◌∷◌, ◌++◌, Option, none, some, ◌==◌,
  if◌then◌else◌, length, get_elem?, take, drop, erase_first,
}
use provider_agent_proxy.Channel.Pipeline.{
  ContextImpl, Pipeline, Outcome, done, throws, check_fails, and_then, takes_in, takes_out, dir_at,
  detach_pipeline,
}

-- std::find and erase, for a list of contexts of one direction.
unfoldable pub erase_found : Bool → ℕ → List ℕ → Option (List ℕ)
erase_found listed c cs = if listed then erase_first c cs else some cs

-- The part of removeAt() that erases a context, which stands at a position, from the three lists.
unfoldable pub erase_context : ℕ → ℕ → Pipeline → Outcome
unfolding erase_found
erase_context i c p = elim (erase_found (takes_in (dir_at p.contexts c)) c p.in_ctxs) [
  | none ↦ check_fails
  | some ins ↦ elim (erase_found (takes_out (dir_at p.contexts c)) c p.out_ctxs) [
    | none ↦ check_fails
    | some outs ↦
        done
          (record p { ctxs = take i p.ctxs ++ drop (suc i) p.ctxs; in_ctxs = ins; out_ctxs = outs })
  ]
]

-- The removal at an iterator, which is a position.
unfoldable pub remove_at : ℕ → Pipeline → Outcome
unfolding detach_pipeline erase_context
remove_at i p = elim (get_elem? p.ctxs i) [
  | none ↦ check_fails
  | some c ↦ erase_context i c (detach_pipeline c p)
]

unfoldable pub remove_front : Pipeline → Outcome
unfolding remove_at
remove_front p = elim p.ctxs [ [] ↦ throws "No handlers in pipeline" p | _ ∷ _ ↦ remove_at 0 p ]

unfoldable pub remove_back : Pipeline → Outcome
unfolding remove_at
remove_back p = elim p.ctxs [
  | [] ↦ throws "No handlers in pipeline" p
  | _ ∷ _ ↦ remove_at (length p.ctxs - 1) p
]

-- Whether a context is one of a class, and of a handler if one is given.
abbrev pub matches : ℕ → Option ℕ → ContextImpl → Bool
matches k wanted x =
    (x.type_of.class_of == k) && elim wanted [ none ↦ true | some h ↦ x.handler == h ]

-- The loop of removeHelper, with `n` contexts at and after the position `i`.
unfoldable pub remove_loop : ℕ → ℕ → ℕ → Option ℕ → Bool → Pipeline → Outcome
unfolding remove_at and_then
remove_loop zero i k wanted removed p =
    if removed then done p else throws "No such handler in pipeline" p
remove_loop (suc n) i k wanted removed p = elim (get_elem? p.ctxs i) [
  | none ↦ check_fails
  | some c ↦ elim (matches k wanted (p.contexts c)) [
    | true ↦ and_then (remove_at i p) (λ q. remove_loop n i k wanted true q)
    | false ↦ remove_loop n (suc i) k wanted removed p
  ]
]

unfoldable pub remove_helper : ℕ → Option ℕ → Pipeline → Outcome
unfolding remove_loop
remove_helper k wanted p = remove_loop (length p.ctxs) 0 k wanted false p

unfoldable pub first_match : (ℕ → Bool) → List ℕ → Option ℕ
first_match test [] = none
first_match test (c ∷ cs) = if test c then some c else first_match test cs

-- getContext<H>()
unfoldable pub get_context : ℕ → Pipeline → Option ℕ
unfolding first_match
get_context k p = first_match (λ c. matches k none (p.contexts c)) p.ctxs

unfoldable pub set_owner : ℕ → ℕ → Pipeline → Pipeline × Bool
unfolding first_match
set_owner k h p = elim (first_match (λ c. matches k (some h) (p.contexts c)) p.ctxs) [
  | none ↦ (p, false)
  | some c ↦ (record p { owner = some c }, true)
]
