-- ===== src/Channel/Pipeline/Attachment.antt =====
-- What attachPipeline() changes, and what it leaves as it is.
use provider_agent_proxy.Common.{
  ℕ, ◌≡◌, refl, ap, ◌∙◌, true, List, [], ◌∷◌, Option, inl, inr, Bool-cases, ◌==◌, update-same,
  see-update, All,
}
use provider_agent_proxy.Channel.Pipeline.{ContextImpl, Pipeline, attach_pipeline}
use provider_agent_proxy.Channel.Pipeline.Finalize.{attach_all}

-- What attachPipeline() does not concern.
module _ {ℓ} {A : Type ℓ} (see : Pipeline → A)
    (keeps : (c : ℕ) (p : Pipeline) → see (attach_pipeline c p) ≡ see p) where
  pub attach_all-see : (cs : List ℕ) (p : Pipeline) → see (attach_all cs p) ≡ see p
  unfolding attach_all
  attach_all-see [] p = refl
  attach_all-see (c ∷ cs) p = attach_all-see cs (attach_pipeline c p) ∙ keeps c p

pub attach_pipeline-see {ℓ} :
    {A : Type ℓ} (see : ContextImpl → A)
    → ((x : ContextImpl) → see (record x { attached = true }) ≡ see x)
    → (d c : ℕ) (p : Pipeline) → see ((attach_pipeline c p).contexts d) ≡ see (p.contexts d)
unfolding attach_pipeline
attach_pipeline-see see h d c p = elim (Bool-cases (p.contexts c).attached) [
  | inl is ↦ rw (attach_pipeline, is) refl
  | inr is ↦
      rw (attach_pipeline, is)
        (see-update see p.contexts c (record (p.contexts c) { attached = true }) d
          (h (p.contexts c)))
]

-- The lists and the ends of a pipeline.
pub record Shape : Type 0 where
  pub ctxs : List ℕ
  pub in_ctxs : List ℕ
  pub out_ctxs : List ℕ
  pub front : Option ℕ
  pub back : Option ℕ
  pub next_id : ℕ

abbrev pub shape : Pipeline → Shape
shape p = record {
  ctxs = p.ctxs;
  in_ctxs = p.in_ctxs;
  out_ctxs = p.out_ctxs;
  front = p.front;
  back = p.back;
  next_id = p.next_id;
}

pub attach_pipeline-shape : (c : ℕ) (p : Pipeline) → shape (attach_pipeline c p) ≡ shape p
unfolding attach_pipeline
attach_pipeline-shape c p = elim (Bool-cases (p.contexts c).attached) [
  | inl is ↦ simp (attach_pipeline, is)
  | inr is ↦ simp (attach_pipeline, is)
]

pub attach_pipeline-attached :
    (c : ℕ) (p : Pipeline) → ((attach_pipeline c p).contexts c).attached ≡ true
unfolding attach_pipeline
attach_pipeline-attached c p = elim (Bool-cases (p.contexts c).attached) [
  | inl is ↦ rw (attach_pipeline, is) is
  | inr is ↦
      rw (attach_pipeline, is)
        (ap (λ (x : ContextImpl). x.attached)
          (update-same p.contexts c (record (p.contexts c) { attached = true })))
]

pub attach_pipeline-stays :
    (c d : ℕ) (p : Pipeline)
    → (p.contexts d).attached ≡ true
    → ((attach_pipeline c p).contexts d).attached ≡ true
unfolding attach_pipeline
attach_pipeline-stays c d p h = elim (Bool-cases (p.contexts c).attached) [
  | inl is ↦ rw (attach_pipeline, is) h
  | inr is ↦ elim (Bool-cases (d == c)) [
    | inl same ↦ rw (attach_pipeline, is, same) refl
    | inr other ↦ rw (attach_pipeline, is, other) h
  ]
]

pub attach_all-stays :
    (cs : List ℕ) (d : ℕ) (p : Pipeline)
    → (p.contexts d).attached ≡ true
    → ((attach_all cs p).contexts d).attached ≡ true
unfolding attach_all
attach_all-stays [] d p h = h
attach_all-stays (c ∷ cs) d p h =
    attach_all-stays cs d (attach_pipeline c p) (attach_pipeline-stays c d p h)

pub attach_all-attached :
    (cs : List ℕ) (p : Pipeline) → All (λ c. ((attach_all cs p).contexts c).attached ≡ true) cs
unfolding attach_all
attach_all-attached [] p = tt
attach_all-attached (c ∷ cs) p = (
  attach_all-stays cs c (attach_pipeline c p) (attach_pipeline-attached c p),
  attach_all-attached cs (attach_pipeline c p),
)
