-- ===== src/Channel/Pipeline/Finalized.antt =====
-- The pipeline that finalize() makes, where all types fit.
use provider_agent_proxy.Common.{
  ℕ, ◌≡◌, refl, sym, ap, ◌∙◌, subst, Bool, true, ◌&&◌, ◌==◌, List, [], ◌∷◌, Option, NoDup,
  NoDup-reverse, NoDup-select, All, All-reverse, reverse, reverse-reverse,
}
use provider_agent_proxy.Channel.Pipeline.{ContextImpl, Pipeline, takes_in, takes_out, dir_at}
use provider_agent_proxy.Channel.Pipeline.Finalize.{
  set_front, set_back, attach_all, is_inbound_link, is_outbound_link, first_link,
}
use provider_agent_proxy.Channel.Pipeline.Attachment.{
  Shape, shape, attach_all-see, attach_pipeline-see, attach_pipeline-shape, attach_all-attached,
}
use provider_agent_proxy.Channel.Pipeline.Directions.{put_in, put_out, joins_out, fits-types}
use provider_agent_proxy.Channel.Pipeline.Listing.{IsListed}
use provider_agent_proxy.Channel.Pipeline.Linking.{
  Chained, fits, linked, linked-keeps, linked-Chained,
}

-- A pipeline after the inbound links, after all links, and after finalize().
unfoldable pub inbound_linked : Pipeline → Pipeline
inbound_linked p = record (set_front p) { contexts = linked put_in p.in_ctxs p.contexts }

unfoldable pub all_linked : Pipeline → Pipeline
unfolding inbound_linked
all_linked p = record (set_back (inbound_linked p)) {
  contexts = linked put_out (reverse p.out_ctxs) (inbound_linked p).contexts;
}

unfoldable pub finalized : Pipeline → Pipeline
unfolding all_linked
finalized p = attach_all (reverse p.ctxs) (all_linked p)

-- A context keeps what neither links nor attachment concern.
finalized-see {ℓ} :
    {A : Type ℓ} (see : ContextImpl → A)
    → ((o : Option ℕ) (x : ContextImpl) → see (put_in o x) ≡ see x)
    → ((o : Option ℕ) (x : ContextImpl) → see (put_out o x) ≡ see x)
    → ((x : ContextImpl) → see (record x { attached = true }) ≡ see x)
    → (p : Pipeline) (c : ℕ) → see ((finalized p).contexts c) ≡ see (p.contexts c)
unfolding finalized inbound_linked
finalized-see see ins outs att p c =
    attach_all-see (λ (q : Pipeline). see (q.contexts c)) (λ d q. attach_pipeline-see see att c d q)
      (reverse p.ctxs) (all_linked p)
    ∙ linked-keeps put_out see outs (reverse p.out_ctxs) (inbound_linked p).contexts c
    ∙ linked-keeps put_in see ins p.in_ctxs p.contexts c

pub finalized-type :
    (p : Pipeline) (c : ℕ) → ((finalized p).contexts c).type_of ≡ (p.contexts c).type_of
finalized-type p c =
    finalized-see (λ (x : ContextImpl). x.type_of) (λ o x. refl) (λ o x. refl) (λ x. refl) p c

pub out_types :
    (p : Pipeline)
    → fits joins_out (inbound_linked p).contexts (reverse p.out_ctxs)
      ≡ fits joins_out p.contexts (reverse p.out_ctxs)
unfolding inbound_linked
out_types p =
    fits-types joins_out (inbound_linked p).contexts p.contexts (λ x y x' y' e f. rw (e, f) refl)
      (λ c.
        linked-keeps put_in (λ (x : ContextImpl). x.type_of) (λ o x. refl) p.in_ctxs p.contexts c)
      (reverse p.out_ctxs)

-- What finalize() promises of the pipeline `q` that it makes of `p`.
pub record IsFinalized (p q : Pipeline) : Type 0 where
  pub next_ins : Chained (λ c. (q.contexts c).next_in) p.in_ctxs
  pub next_outs : Chained (λ c. (q.contexts c).next_out) (reverse p.out_ctxs)
  pub all_attached : All (λ c. (q.contexts c).attached ≡ true) p.ctxs
  pub lists : (q.ctxs ≡ p.ctxs) × (q.in_ctxs ≡ p.in_ctxs) × (q.out_ctxs ≡ p.out_ctxs)
  pub ids : q.next_id ≡ p.next_id
  pub front_is : q.front ≡ first_link (is_inbound_link p.r_type) p.contexts p.in_ctxs
  pub types : (c : ℕ) → (q.contexts c).type_of ≡ (p.contexts c).type_of
  pub back_is : q.back ≡ first_link (is_outbound_link p.w_type) p.contexts (reverse p.out_ctxs)

first_link-types :
    (test : ContextImpl → Bool) (new old : ℕ → ContextImpl)
    → ((c : ℕ) → test (new c) ≡ test (old c))
    → (cs : List ℕ) → first_link test new cs ≡ first_link test old cs
first_link-types test new old h [] = refl
first_link-types test new old h (c ∷ cs) = rw (h c) refl

NoDup-ins : (p : Pipeline) → IsListed p → NoDup p.in_ctxs
NoDup-ins p l =
    subst NoDup (sym l.ins) (NoDup-select (λ c. takes_in (dir_at p.contexts c)) p.ctxs l.distinct)

NoDup-outs : (p : Pipeline) → IsListed p → NoDup (reverse p.out_ctxs)
NoDup-outs p l = NoDup-reverse p.out_ctxs (
    subst NoDup (sym l.outs)
      (NoDup-select (λ c. takes_out (dir_at p.contexts c)) p.ctxs l.distinct))

Chained-see :
    (new old : ℕ → Option ℕ)
    → ((c : ℕ) → new c ≡ old c)
    → (cs : List ℕ) → Chained old cs
    → Chained new cs
Chained-see new old h [] k = tt
Chained-see new old h (c ∷ cs) (k, ks) = (h c ∙ k, Chained-see new old h cs ks)

finalized-shape : (p : Pipeline) → shape (finalized p) ≡ shape (all_linked p)
unfolding finalized
finalized-shape p = attach_all-see shape attach_pipeline-shape (reverse p.ctxs) (all_linked p)

-- The attachment leaves what a context keeps when it is attached.
attached-see {ℓ} :
    {A : Type ℓ} (see : ContextImpl → A)
    → ((x : ContextImpl) → see (record x { attached = true }) ≡ see x)
    → (p : Pipeline) (c : ℕ) → see ((finalized p).contexts c) ≡ see ((all_linked p).contexts c)
unfolding finalized
attached-see see att p c =
    attach_all-see (λ (q : Pipeline). see (q.contexts c)) (λ d q. attach_pipeline-see see att c d q)
      (reverse p.ctxs) (all_linked p)

pub finalized-IsFinalized : (p : Pipeline) → IsListed p → IsFinalized p (finalized p)
unfolding finalized all_linked inbound_linked
finalized-IsFinalized p l = record {
  next_ins =
      Chained-see (λ c. ((finalized p).contexts c).next_in)
        (λ c. (linked put_in p.in_ctxs p.contexts c).next_in)
        (λ c.
          attached-see (λ (x : ContextImpl). x.next_in) (λ x. refl) p c
          ∙ linked-keeps put_out (λ (x : ContextImpl). x.next_in) (λ o x. refl) (reverse p.out_ctxs)
              (linked put_in p.in_ctxs p.contexts) c)
        p.in_ctxs
        (linked-Chained put_in (λ (x : ContextImpl). x.next_in) (λ o x. refl) p.in_ctxs p.contexts
          (NoDup-ins p l));
  next_outs =
      Chained-see (λ c. ((finalized p).contexts c).next_out)
        (λ c. ((all_linked p).contexts c).next_out)
        (λ c. attached-see (λ (x : ContextImpl). x.next_out) (λ x. refl) p c) (reverse p.out_ctxs)
        (linked-Chained put_out (λ (x : ContextImpl). x.next_out) (λ o x. refl) (reverse p.out_ctxs)
          (inbound_linked p).contexts (NoDup-outs p l));
  all_attached =
      subst (All (λ c. ((finalized p).contexts c).attached ≡ true)) (reverse-reverse p.ctxs) (
        All-reverse (λ c. ((finalized p).contexts c).attached ≡ true) (reverse p.ctxs)
          (attach_all-attached (reverse p.ctxs) (all_linked p)));
  lists = (
    ap (λ (s : Shape). s.ctxs) (finalized-shape p),
    ap (λ (s : Shape). s.in_ctxs) (finalized-shape p),
    ap (λ (s : Shape). s.out_ctxs) (finalized-shape p),
  );
  types = finalized-type p;
  ids = ap (λ (s : Shape). s.next_id) (finalized-shape p);
  front_is = ap (λ (s : Shape). s.front) (finalized-shape p);
  back_is =
      ap (λ (s : Shape). s.back) (finalized-shape p)
      ∙ first_link-types (is_outbound_link p.w_type) (inbound_linked p).contexts p.contexts
          (λ c. ap (λ t. takes_out t.dir && (t.win == p.w_type)) (type_kept c))
          (reverse p.out_ctxs);
}
  where
    type_kept : (c : ℕ) → ((inbound_linked p).contexts c).type_of ≡ (p.contexts c).type_of
    type_kept c =
        linked-keeps put_in (λ (x : ContextImpl). x.type_of) (λ o x. refl) p.in_ctxs p.contexts c
