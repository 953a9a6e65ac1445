-- ===== src/Channel/Pipeline/Listing.antt =====
-- What the three lists of a pipeline have in common, whatever is added and removed.
use mathlib.Core.List.{append-nil}
use provider_agent_proxy.Common.{
  inl, inr, Bool-cases, ℕ, suc, ◌<◌, arith, ◌≡◌, refl, sym, ap, ◌∙◌, Bool, true, false, List, [],
  ◌∷◌, ◌++◌, some, ◌==◌, take, drop, update, update-other, select, select-append, select-congr,
  erase_first-append, All, All-append, All-map, All-select, NoDup, NoDup-append_last, NoDup-before,
  Differs, if◌then◌else◌,
}
use provider_agent_proxy.Channel.Pipeline.{
  HandlerDir, HandlerType, ContextImpl, Pipeline, takes_in, takes_out, dir_at, inbound_of,
  outbound_of, insert_at, add_helper, make_context, new_context, add_back, add_front,
  detach_pipeline,
}
use provider_agent_proxy.Channel.Pipeline.Removal.{erase_found}

-- The contexts are distinct and made before, and the lists of one direction are those of the
-- contexts that have this direction.
pub record IsListed (p : Pipeline) : Type 0 where
  pub ins : p.in_ctxs ≡ inbound_of p.contexts p.ctxs
  pub outs : p.out_ctxs ≡ outbound_of p.contexts p.ctxs
  pub distinct : NoDup p.ctxs
  pub made : All (λ c. c < p.next_id) p.ctxs

-- The contexts of a list whose direction passes a test.
abbrev of_dir : (HandlerDir → Bool) → (ℕ → ContextImpl) → List ℕ → List ℕ
of_dir f contexts cs = select (λ c. f (dir_at contexts c)) cs

All-of : {P : ℕ → Type 0} → ((c : ℕ) → P c) → (cs : List ℕ) → All P cs
All-of f [] = tt
All-of f (c ∷ cs) = (f c, All-of f cs)

-- A context that is not of the list does not matter; nor does a change that keeps its type.
of_dir-update :
    (f : HandlerDir → Bool) (contexts : ℕ → ContextImpl) (i : ℕ) (x : ContextImpl) (cs : List ℕ)
    → Differs i cs
    → of_dir f (update contexts i x) cs ≡ of_dir f contexts cs
of_dir-update f contexts i x cs h =
    select-congr (λ c. f (dir_at (update contexts i x) c)) (λ c. f (dir_at contexts c)) cs
      (All-map (λ c. (c == i) ≡ false)
        (λ c. f (dir_at (update contexts i x) c) ≡ f (dir_at contexts c)) cs
        (λ c k. ap (λ (y : ContextImpl). f y.type_of.dir) (update-other contexts i c x k)) h)

pub dir_at-update :
    (contexts : ℕ → ContextImpl) (i : ℕ) (x : ContextImpl) (c : ℕ)
    → x.type_of ≡ (contexts i).type_of
    → (update contexts i x c).type_of ≡ (contexts c).type_of
dir_at-update contexts i x c h = ground (arith, h)

select-insert_at :
    (f : ℕ → Bool) (front : Bool) (c : ℕ) (cs : List ℕ)
    → select f (insert_at front c cs)
      ≡ (if f c then insert_at front c (select f cs) else select f cs)
select-insert_at f true c cs = refl
select-insert_at f false c cs = select-append f cs (c ∷ []) ∙ last (f c)
  where
    last :
        (b : Bool)
        → select f cs ++ (if b then c ∷ [] else [])
          ≡ (if b then select f cs ++ (c ∷ []) else select f cs)
    last true = refl
    last false = append-nil (select f cs)

NoDup-insert_at :
    (front : Bool) (c : ℕ) (cs : List ℕ) → NoDup cs → Differs c cs → NoDup (insert_at front c cs)
NoDup-insert_at true c cs h d = (d, h)
NoDup-insert_at false c cs h d = NoDup-append_last cs c h d

All-insert_at :
    (P : ℕ → Type 0) (front : Bool) (c : ℕ) (cs : List ℕ)
    → All P cs
    → P c
    → All P (insert_at front c cs)
All-insert_at P true c cs h k = (k, h)
All-insert_at P false c cs h k = All-append P cs (c ∷ []) h (k, tt)

-- The context that is made next differs from those that are made.
made-Differs : (n : ℕ) (cs : List ℕ) → All (λ c. c < n) cs → Differs n cs
made-Differs n cs h = All-map (λ c. c < n) (λ c. (c == n) ≡ false) cs (λ c k. ground arith) h

-- A pipeline to which a new context is added, at either end.
add_new : Bool → HandlerType → ℕ → Pipeline → Pipeline
add_new front t h p = add_helper p.next_id front (make_context t h p)

listed-add :
    (f : HandlerDir → Bool) (front : Bool) (p : Pipeline) (x : ContextImpl) (old : List ℕ)
    → IsListed p
    → old ≡ of_dir f p.contexts p.ctxs
    → (if f (dir_at (update p.contexts p.next_id x) p.next_id)
        then insert_at front p.next_id old
        else old)
      ≡ of_dir f (update p.contexts p.next_id x) (insert_at front p.next_id p.ctxs)
listed-add f front p x old l is =
    let same =
      of_dir-update f p.contexts p.next_id x p.ctxs (made-Differs p.next_id p.ctxs l.made) in
    ap
      (λ o.
        if f (dir_at (update p.contexts p.next_id x) p.next_id)
        then insert_at front p.next_id o
        else o)
      (is ∙ sym same)
    ∙ sym (
        select-insert_at (λ c. f (dir_at (update p.contexts p.next_id x) c)) front p.next_id p.ctxs)

add_new-IsListed :
    (front : Bool) (t : HandlerType) (h : ℕ) (p : Pipeline)
    → IsListed p
    → IsListed (add_new front t h p)
unfolding add_new add_helper make_context
add_new-IsListed front t h p l = record {
  ins = listed-add takes_in front p (new_context t h) p.in_ctxs l l.ins;
  outs = listed-add takes_out front p (new_context t h) p.out_ctxs l l.outs;
  distinct =
      NoDup-insert_at front p.next_id p.ctxs l.distinct (made-Differs p.next_id p.ctxs l.made);
  made =
      All-insert_at (λ c. c < suc p.next_id) front p.next_id p.ctxs
        (All-map (λ c. c < p.next_id) (λ c. c < suc p.next_id) p.ctxs (λ c k. omega arith) l.made)
        (omega arith);
}

pub add_back-IsListed :
    (t : HandlerType) (h : ℕ) (p : Pipeline) → IsListed p → IsListed (add_back t h p)
unfolding add_back add_new
add_back-IsListed t h p l = add_new-IsListed false t h p l

pub add_front-IsListed :
    (t : HandlerType) (h : ℕ) (p : Pipeline) → IsListed p → IsListed (add_front t h p)
unfolding add_front add_new
add_front-IsListed t h p l = add_new-IsListed true t h p l

-- The pipeline without the context at a position.
abbrev pub without : ℕ → ℕ → Pipeline → Pipeline
without i c p =
    let rest = take i p.ctxs ++ drop (suc i) p.ctxs in
    record (detach_pipeline c p) {
      ctxs = rest;
      in_ctxs = inbound_of p.contexts rest;
      out_ctxs = outbound_of p.contexts rest;
    }

pub erase_found-select :
    (f : ℕ → Bool) (c : ℕ) (before after : List ℕ)
    → NoDup (before ++ (c ∷ after))
    → erase_found (f c) c (select f (before ++ (c ∷ after))) ≡ some (select f (before ++ after))
unfolding erase_found
erase_found-select f c before after h = elim (Bool-cases (f c)) [
  | inl is ↦
      rw (is, select-append f before (c ∷ after), select-append f before after, is)
        (erase_first-append (select f before) (select f after) c
          (All-select (λ x. (x == c) ≡ false) f before (NoDup-before before after c h)))
  | inr is ↦ rw (is, select-append f before (c ∷ after), select-append f before after, is) refl
]

pub of_dir-unchanged :
    (f : HandlerDir → Bool) (new old : ℕ → ContextImpl) (cs : List ℕ)
    → ((c : ℕ) → dir_at new c ≡ dir_at old c)
    → select (λ c. f (dir_at new c)) cs ≡ select (λ c. f (dir_at old c)) cs
of_dir-unchanged f new old cs h =
    select-congr (λ c. f (dir_at new c)) (λ c. f (dir_at old c)) cs (All-of (λ c. ap f (h c)) cs)
