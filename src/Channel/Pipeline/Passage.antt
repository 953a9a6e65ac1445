-- ===== src/Channel/Pipeline/Passage.antt =====
-- The way of an event through a pipeline, described without the links between the contexts.
use provider_agent_proxy.Common.{
  ℕ, arith, ◌≡◌, refl, ap, subst, Bool, true, false, List, [], ◌∷◌, ◌++◌, map, Option, some, select,
  head, All, if-true, if-false, if◌then◌else◌, inl, inr, Bool-cases,
}
use provider_agent_proxy.Channel.Pipeline.{
  HandlerDir, dir_both, dir_in, dir_out, ContextImpl, dir_at, takes_in, takes_out,
}
use provider_agent_proxy.Channel.Pipeline.Events.{
  Inbound, Outbound, Fire, fire_in, fire_out, Step, called, can_fire, end_of, fire, fire_all,
}
use provider_agent_proxy.Channel.Pipeline.Linking.{Chained}

-- The steps of events that are passed on one after the other.
abbrev pub each : {A B : Type 0} → (A → List B) → List A → List B
each f [] = []
each f (x ∷ xs) = f x ++ each f xs

module _ {M : Type 0} (react : ℕ → Fire M → List (Fire M))
    (passes : ℕ → Outbound M → List (Outbound M)) (contexts : ℕ → ContextImpl) where
  -- An outbound event goes to the outbound contexts of a list, which stand from the back to the front.
  abbrev pub outward : List ℕ → Outbound M → List (Step M)
  outward [] o = end_of (fire_out o)
  outward (c ∷ cs) o =
      if takes_out (dir_at contexts c)
      then called (contexts c).handler (fire_out o)
        ∷ each (λ o'. outward cs o') (passes (contexts c).handler o)
      else outward cs o

  -- An inbound event goes to the inbound contexts that stand ahead; the outbound events that a handler
  -- fires go to those behind it.
  abbrev pub inward : List ℕ → List ℕ → Inbound M → List (Step M)
  inward behind [] i = end_of (fire_in i)
  inward behind (c ∷ ahead) i =
      if takes_in (dir_at contexts c)
      then called (contexts c).handler (fire_in i)
        ∷ each
            (λ (e : Fire M). elim e [
              | fire_in j ↦ inward (c ∷ behind) ahead j
              | fire_out o ↦ outward behind o
            ])
            (select (can_fire (dir_at contexts c)) (react (contexts c).handler (fire_in i)))
      else inward (c ∷ behind) ahead i

pub Chained-right :
    (next : ℕ → Option ℕ) (xs ys : List ℕ) → Chained next (xs ++ ys) → Chained next ys
Chained-right next [] ys h = h
Chained-right next (x ∷ xs) ys (h, hs) = Chained-right next xs ys hs

module _ {M : Type 0} where
  pub fire_all-each :
      (pass : ℕ → Fire M → Option (List (Step M))) (x : ContextImpl) (f : Fire M → List (Step M))
      (es : List (Fire M))
      → All (λ e. fire pass x e ≡ some (f e)) es
      → fire_all pass x es ≡ some (each f es)
  unfolding fire_all
  fire_all-each pass x f [] h = refl
  fire_all-each pass x f (e ∷ es) (h, hs) = rw (h, fire_all-each pass x f es hs) refl

  pub fire_all-outs :
      (pass : ℕ → Fire M → Option (List (Step M))) (x : ContextImpl)
      (f : Outbound M → List (Step M)) (os : List (Outbound M))
      → ((o : Outbound M) → fire pass x (fire_out o) ≡ some (f o))
      → fire_all pass x (map fire_out os) ≡ some (each f os)
  unfolding fire_all
  fire_all-outs pass x f [] h = refl
  fire_all-outs pass x f (o ∷ os) h = rw (h o, fire_all-outs pass x f os h) refl

  pub select-outs :
      (dir : HandlerDir) (os : List (Outbound M))
      → takes_out dir ≡ true
      → select (can_fire dir) (map fire_out os) ≡ map fire_out os
  select-outs dir_both [] h = refl
  select-outs dir_both (o ∷ os) h = ap (◌∷◌ (fire_out o)) (select-outs dir_both os h)
  select-outs dir_in os h = absurd (ground arith)
  select-outs dir_out [] h = refl
  select-outs dir_out (o ∷ os) h = ap (◌∷◌ (fire_out o)) (select-outs dir_out os h)

  pub All-selected : (f : Fire M → Bool) (es : List (Fire M)) → All (λ e. f e ≡ true) (select f es)
  All-selected f [] = tt
  All-selected f (e ∷ es) = elim (Bool-cases (f e)) [
    | inl is ↦ rw is (is, All-selected f es)
    | inr is ↦ rw is (All-selected f es)
  ]

  pub fires_out :
      (dir : HandlerDir) (o : Outbound M) → can_fire dir (fire_out o) ≡ true → takes_out dir ≡ true
  fires_out dir_both o h = refl
  fires_out dir_in o h = h
  fires_out dir_out o h = refl

-- The links of a list that begins with a context, which passes the test or does not.
module _ (next : ℕ → Option ℕ) (test : ℕ → Bool) (c : ℕ) (cs : List ℕ) where
  pub Chained-next :
      test c ≡ true
      → Chained next (select test (c ∷ cs))
      → (next c ≡ head (select test cs)) × Chained next (select test cs)
  Chained-next is chain =
      subst (Chained next) (if-true (test c) (c ∷ select test cs) (select test cs) is) chain

  pub Chained-skip :
      test c ≡ false → Chained next (select test (c ∷ cs)) → Chained next (select test cs)
  Chained-skip is chain =
      subst (Chained next) (if-false (test c) (c ∷ select test cs) (select test cs) is) chain
