-- ===== src/Channel/Pipeline.antt =====
-- wangle/channel/Pipeline.h, Pipeline-inl.h, Pipeline.cpp and HandlerContext-inl.h: the contexts of a
-- pipeline, how they are added, removed and linked, and the attachment of their handlers. Contexts,
-- handlers and C++ types are numbers. The handlers' own attachPipeline and detachPipeline do not
-- change the pipeline.
pub mod Removal
pub mod Finalize
pub mod Events
pub mod Listing
pub mod Removing
pub mod Matching
pub mod Unattached
pub mod Linking
pub mod Directions
pub mod Finalized
pub mod Finalizing
pub mod Passage
pub mod Delivery
pub mod Order
pub mod Building
pub mod Attachment
use provider_agent_proxy.Common.{
  ℕ, zero, suc, ◌+◌, ◌-◌, ◌%◌, ◌^◌, Bool, true, false, ◌&&◌, List, [], ◌∷◌, ◌++◌, Option, none,
  some, String, ◌==◌, leb, if◌then◌else◌, length, get_elem?, take, drop, update, select,
  erase_first, reverse,
}

pub data HandlerDir : Type 0 where
  dir_both dir_in dir_out : HandlerDir

-- What the type of a handler fixes: the C++ class, and rin, rout, win and wout.
pub record HandlerType : Type 0 where
  pub class_of : ℕ
  pub dir : HandlerDir
  pub rin : ℕ
  pub rout : ℕ
  pub win : ℕ
  pub wout : ℕ

pub record ContextImpl : Type 0 where
  pub type_of : HandlerType
  pub handler : ℕ
  pub next_in : Option ℕ
  pub next_out : Option ℕ
  pub attached : Bool

pub record HandlerBase : Type 0 where
  pub attach_count : ℕ
  pub ctx : Option ℕ

-- The calls of a handler's attachPipeline and detachPipeline, each with the handler and the context.
pub data AttachCall : Type 0 where
  attach_call detach_call : ℕ → ℕ → AttachCall

-- The contexts and the handlers stand in two stores; `next_id` is the next context's number, and
-- `r_type` and `w_type` are the parameters R and W.
pub record Pipeline : Type 0 where
  pub contexts : ℕ → ContextImpl
  pub handlers : ℕ → HandlerBase
  pub next_id : ℕ
  pub r_type : ℕ
  pub w_type : ℕ
  pub ctxs : List ℕ
  pub in_ctxs : List ℕ
  pub out_ctxs : List ℕ
  pub owner : Option ℕ
  pub front : Option ℕ
  pub back : Option ℕ
  pub attach_calls : List AttachCall

-- How a call ends: it returns, it throws std::invalid_argument with a message, or a CHECK fails.
pub data Outcome : Type 0 where
  done : Pipeline → Outcome
  throws : String → Pipeline → Outcome
  check_fails : Outcome

unfoldable pub and_then : Outcome → (Pipeline → Outcome) → Outcome
and_then (done p) f = f p
and_then (throws e p) f = throws e p
and_then check_fails f = check_fails

abbrev pub takes_in : HandlerDir → Bool
takes_in dir_both = true
takes_in dir_in = true
takes_in dir_out = false

abbrev pub takes_out : HandlerDir → Bool
takes_out dir_both = true
takes_out dir_in = false
takes_out dir_out = true

abbrev pub dir_at : (ℕ → ContextImpl) → ℕ → HandlerDir
dir_at contexts c = (contexts c).type_of.dir

-- The contexts of a list that are inbound, and those that are outbound.
abbrev pub inbound_of : (ℕ → ContextImpl) → List ℕ → List ℕ
inbound_of contexts cs = select (λ c. takes_in (dir_at contexts c)) cs

abbrev pub outbound_of : (ℕ → ContextImpl) → List ℕ → List ℕ
outbound_of contexts cs = select (λ c. takes_out (dir_at contexts c)) cs

-- The insertion at begin() or at end().
abbrev pub insert_at : Bool → ℕ → List ℕ → List ℕ
insert_at front c cs = if front then c ∷ cs else cs ++ (c ∷ [])

unfoldable pub add_helper : ℕ → Bool → Pipeline → Pipeline
add_helper c front p = record p {
  ctxs = insert_at front c p.ctxs;
  in_ctxs = if takes_in (dir_at p.contexts c) then insert_at front c p.in_ctxs else p.in_ctxs;
  out_ctxs = if takes_out (dir_at p.contexts c) then insert_at front c p.out_ctxs else p.out_ctxs;
}

abbrev pub new_context : HandlerType → ℕ → ContextImpl
new_context t h = record {
  type_of = t;
  handler = h;
  next_in = none;
  next_out = none;
  attached = false;
}

-- std::make_shared<Context>(shared_from_this(), handler)
unfoldable pub make_context : HandlerType → ℕ → Pipeline → Pipeline
make_context t h p = record p {
  contexts = update p.contexts p.next_id (new_context t h);
  next_id = suc p.next_id;
}

unfoldable pub add_back : HandlerType → ℕ → Pipeline → Pipeline
unfolding add_helper make_context
add_back t h p = add_helper p.next_id false (make_context t h p)

unfoldable pub add_front : HandlerType → ℕ → Pipeline → Pipeline
unfolding add_helper make_context
add_front t h p = add_helper p.next_id true (make_context t h p)

unfoldable pub attach_context : ℕ → HandlerBase → HandlerBase
attach_context c h =
    let count = (h.attach_count + 1) % 2 ^ 64 in
    record { attach_count = count; ctx = if count == 1 then some c else none }

unfoldable pub detach_context : HandlerBase → HandlerBase
detach_context h = record {
  attach_count = if leb 1 h.attach_count then h.attach_count - 1 else h.attach_count;
  ctx = none;
}

unfoldable pub attach_pipeline : ℕ → Pipeline → Pipeline
attach_pipeline c p = if (p.contexts c).attached then p else record p {
  handlers =
      update p.handlers (p.contexts c).handler
        (attach_context c (p.handlers (p.contexts c).handler));
  attach_calls = p.attach_calls ++ (attach_call (p.contexts c).handler c ∷ []);
  contexts = update p.contexts c (record (p.contexts c) { attached = true });
}

unfoldable pub detach_pipeline : ℕ → Pipeline → Pipeline
detach_pipeline c p = record p {
  attach_calls = p.attach_calls ++ (detach_call (p.contexts c).handler c ∷ []);
  contexts = update p.contexts c (record (p.contexts c) { attached = false });
  handlers =
      update p.handlers (p.contexts c).handler (detach_context (p.handlers (p.contexts c).handler));
}
