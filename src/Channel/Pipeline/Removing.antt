-- ===== src/Channel/Pipeline/Removing.antt =====
-- What a removal from a pipeline does.
use mathlib.Core.List.{append-nil}
use provider_agent_proxy.Common.{
  ℕ, suc, ◌-◌, ◌<◌, arith, ◌≡◌, refl, sym, ap, subst, ◌∙◌, Bool, false, List, [], ◌∷◌, ◌++◌, some,
  inl, inr, List-cases, drop-all, length, get_elem?, take, drop, select, All, All-append, All-left,
  All-right, NoDup, NoDup-less, split_at, take-length-append, ◌⊎◌,
}
use provider_agent_proxy.Channel.Pipeline.{
  HandlerDir, Pipeline, done, throws, takes_in, takes_out, dir_at, inbound_of, outbound_of,
  detach_pipeline,
}
use provider_agent_proxy.Channel.Pipeline.Removal.{
  erase_found, erase_context, remove_at, remove_front, remove_back,
}
use provider_agent_proxy.Channel.Pipeline.Listing.{
  IsListed, without, erase_found-select, dir_at-update, of_dir-unchanged,
}

-- The first `suc n` elements are the first `n` and the next.
pub take_next :
    {A : Type 0} (before : List A) (c : A) (after : List A)
    → (get_elem? (before ++ (c ∷ after)) (length before) ≡ some c)
      × (drop (suc (length before)) (before ++ (c ∷ after)) ≡ after)
take_next [] c after = (refl, refl)
take_next (x ∷ xs) c after = take_next xs c after

-- The directions of contexts are those of before.
without-dir :
    (i c : ℕ) (p : Pipeline) (d : ℕ) → dir_at (without i c p).contexts d ≡ dir_at p.contexts d
unfolding detach_pipeline
without-dir i c p d =
    ap (λ t. t.dir) (dir_at-update p.contexts c (record (p.contexts c) { attached = false }) d refl)

pub without-IsListed :
    (i c : ℕ) (p : Pipeline) → IsListed p → get_elem? p.ctxs i ≡ some c → IsListed (without i c p)
unfolding detach_pipeline
without-IsListed i c p l at_i =
    let rest = take i p.ctxs ++ drop (suc i) p.ctxs in
    let split = split_at i p.ctxs c at_i in
    record {
      ins =
          sym (
            of_dir-unchanged takes_in (without i c p).contexts p.contexts rest (without-dir i c p));
      outs =
          sym (
            of_dir-unchanged takes_out (without i c p).contexts p.contexts rest
              (without-dir i c p));
      distinct = NoDup-less (take i p.ctxs) (drop (suc i) p.ctxs) c (subst NoDup split l.distinct);
      made =
          All-less (take i p.ctxs) (drop (suc i) p.ctxs)
            (subst (All (λ d. d < p.next_id)) split l.made);
    }
  where
    All-less :
        (xs ys : List ℕ)
        → All (λ d. d < p.next_id) (xs ++ (c ∷ ys))
        → All (λ d. d < p.next_id) (xs ++ ys)
    All-less xs ys h =
        All-append (λ d. d < p.next_id) xs ys (All-left (λ d. d < p.next_id) xs (c ∷ ys) h)
          (All-right (λ d. d < p.next_id) xs (c ∷ ys) h).1

erase_context-done :
    (i c : ℕ) (p : Pipeline) (ins outs : List ℕ)
    → erase_found (takes_in (dir_at p.contexts c)) c p.in_ctxs ≡ some ins
    → erase_found (takes_out (dir_at p.contexts c)) c p.out_ctxs ≡ some outs
    → erase_context i c p
      ≡ done
          (record p { ctxs = take i p.ctxs ++ drop (suc i) p.ctxs; in_ctxs = ins; out_ctxs = outs })
unfolding erase_context
erase_context-done i c p ins outs h k = rw (erase_context, h, k) refl

remove_at-get :
    (i c : ℕ) (p : Pipeline)
    → get_elem? p.ctxs i ≡ some c
    → remove_at i p ≡ erase_context i c (detach_pipeline c p)
unfolding remove_at erase_context
remove_at-get i c p h = rw (remove_at, h) refl

-- removeAt() finds the context in the lists of its directions.
pub remove_at-listed :
    (i c : ℕ) (p : Pipeline)
    → IsListed p
    → get_elem? p.ctxs i ≡ some c
    → remove_at i p ≡ done (without i c p)
unfolding detach_pipeline
remove_at-listed i c p l at_i =
    remove_at-get i c p at_i
    ∙ erase_context-done i c (detach_pipeline c p)
        (inbound_of p.contexts (take i p.ctxs ++ drop (suc i) p.ctxs))
        (outbound_of p.contexts (take i p.ctxs ++ drop (suc i) p.ctxs))
        (found takes_in p.in_ctxs l.ins) (found takes_out p.out_ctxs l.outs)
  where
    found :
        (f : HandlerDir → Bool) (old : List ℕ)
        → old ≡ select (λ d. f (dir_at p.contexts d)) p.ctxs
        → erase_found (f (dir_at (without i c p).contexts c)) c old
          ≡ some (select (λ d. f (dir_at p.contexts d)) (take i p.ctxs ++ drop (suc i) p.ctxs))
    found f old is =
        ap (λ t. erase_found (f t) c old) (without-dir i c p c)
        ∙ ap (erase_found (f (dir_at p.contexts c)) c)
            (is ∙ ap (select (λ d. f (dir_at p.contexts d))) (split_at i p.ctxs c at_i))
        ∙ erase_found-select (λ d. f (dir_at p.contexts d)) c (take i p.ctxs) (drop (suc i) p.ctxs)
            (subst NoDup (split_at i p.ctxs c at_i) l.distinct)

pub rest_of :
    (before : List ℕ) (c : ℕ) (after : List ℕ) (p : Pipeline)
    → p.ctxs ≡ before ++ (c ∷ after)
    → (without (length before) c p).ctxs ≡ before ++ after
rest_of before c after p is =
    ap (λ cs. take (length before) cs ++ drop (suc (length before)) cs) is
    ∙ rw (take-length-append before (c ∷ after), (take_next before c after).1) refl

module _ (p : Pipeline) where
  remove_front-nil : p.ctxs ≡ [] → remove_front p ≡ throws "No handlers in pipeline" p
  unfolding remove_front
  remove_front-nil is = simp (is, remove_front)

  remove_back-nil : p.ctxs ≡ [] → remove_back p ≡ throws "No handlers in pipeline" p
  unfolding remove_back
  remove_back-nil is = simp (is, remove_back)

  remove_front-cons : (c : ℕ) (cs : List ℕ) → p.ctxs ≡ c ∷ cs → remove_front p ≡ remove_at 0 p
  unfolding remove_front
  remove_front-cons c cs is = simp (is, remove_front)

  pub remove_back-cons :
      (c : ℕ) (cs : List ℕ) → p.ctxs ≡ c ∷ cs → remove_back p ≡ remove_at (length p.ctxs - 1) p
  unfolding remove_back
  remove_back-cons c cs is = simp (is, remove_back)

-- From a pipeline whose lists agree: removeFront and removeBack remove the first and the last context
-- and leave lists that agree again; an empty pipeline makes them throw and is not changed.
pub remove_ends-IsListed :
    (p : Pipeline)
    → IsListed p
    → ((p.ctxs ≡ [])
        × (remove_front p ≡ throws "No handlers in pipeline" p)
        × (remove_back p ≡ throws "No handlers in pipeline" p))
      ⊎ ((q : Pipeline) × (r : Pipeline) × (remove_front p ≡ done q)
          × (remove_back p ≡ done r)
          × IsListed q
          × IsListed r
          × (q.ctxs ≡ drop 1 p.ctxs)
          × (r.ctxs ≡ take (length p.ctxs - 1) p.ctxs))
remove_ends-IsListed p l = elim (List-cases p.ctxs) [
  | inl is ↦ inl (is, remove_front-nil p is, remove_back-nil p is)
  | inr (c, cs, is) ↦
      let (d, at_end) = last_at c cs in
      let first = ap (λ l. get_elem? l 0) is in
      let last =
        ap (λ l. get_elem? l (length l - 1)) is
        ∙ ap (get_elem? (c ∷ cs)) (length-last cs)
        ∙ at_end in
      let n = length p.ctxs - 1 in
      inr (
        without 0 c p,
        without n d p,
        remove_front-cons p c cs is ∙ remove_at-listed 0 c p l first,
        remove_back-cons p c cs is ∙ remove_at-listed n d p l last,
        without-IsListed 0 c p l first,
        without-IsListed n d p l last,
        refl,
        ap (◌++◌ (take n p.ctxs)) (
              ap (λ l. drop (suc (length l - 1)) l) is
              ∙ ap (λ i. drop (suc i) (c ∷ cs)) (length-last cs)
              ∙ drop-all cs)
            ∙ append-nil (take n p.ctxs),
      )
]
  where
    length-last : (cs : List ℕ) → suc (length cs) - 1 ≡ length cs
    length-last cs = omega arith

    last_at : (c : ℕ) (cs : List ℕ) → (d : ℕ) × (get_elem? (c ∷ cs) (length cs) ≡ some d)
    last_at c [] = (c, refl)
    last_at c (d ∷ cs) = last_at d cs
