-- ===== src/Channel/Pipeline/Linking.antt =====
-- The links and the attachment that finalize() makes.
use provider_agent_proxy.Common.{
  ℕ, arith, ◌≢◌, ◌≡◌, refl, sym, ap, ◌∙◌, Bool, true, false, ◌&&◌, List, [], ◌∷◌, Option, none,
  some, String, inl, inr, Bool-cases, update, update-same, see-update, ==_comm, update-other,
  Differs, NoDup, head,
}
use provider_agent_proxy.Channel.Pipeline.{ContextImpl, Pipeline, Outcome, done, throws, and_then}
use provider_agent_proxy.Channel.Pipeline.Finalize.{link_with}

-- Each context of the list is followed by the next one.
abbrev pub Chained : (ℕ → Option ℕ) → List ℕ → Type 0
Chained next [] = Unit {0}
Chained next (c ∷ cs) = (next c ≡ head cs) × Chained next cs

-- Neighbours of the list pass a test.
abbrev pub fits : (ContextImpl → ContextImpl → Bool) → (ℕ → ContextImpl) → List ℕ → Bool
fits joins contexts [] = true
fits joins contexts (c ∷ []) = true
fits joins contexts (c ∷ d ∷ cs) = joins (contexts c) (contexts d) && fits joins contexts (d ∷ cs)

and-rest : {a b : Bool} → a ≡ true → a && b ≡ true → b ≡ true
and-rest {a} {b} h k = ground arith

and-rest-false : {a b : Bool} → a ≡ true → a && b ≡ false → b ≡ false
and-rest-false {a} {b} h k = ground arith

and-first : (a b : Bool) → a ≡ false → a && b ≡ false
and-first a b h = ground arith

true-ne-false : true ≢ false
true-ne-false h = ground arith

-- The links of a list, where `put` sets a link.
module _ (put : Option ℕ → ContextImpl → ContextImpl) where
  unfoldable pub moved : ℕ → Option ℕ → (ℕ → ContextImpl) → ℕ → ContextImpl
  moved c o contexts = update contexts c (put o (contexts c))

  unfoldable pub linked : List ℕ → (ℕ → ContextImpl) → ℕ → ContextImpl
  unfolding moved
  linked [] contexts = contexts
  linked (c ∷ cs) contexts = linked cs (moved c (head cs) contexts)

  -- What the link does not change is as before.
  pub linked-keeps {ℓ} :
      {A : Type ℓ} (see : ContextImpl → A)
      → ((o : Option ℕ) (x : ContextImpl) → see (put o x) ≡ see x)
      → (cs : List ℕ) (contexts : ℕ → ContextImpl) (d : ℕ)
      → see (linked cs contexts d) ≡ see (contexts d)
  unfolding linked moved
  linked-keeps see h [] contexts d = refl
  linked-keeps see h (c ∷ cs) contexts d =
      linked-keeps see h cs (moved c (head cs) contexts) d
      ∙ see-update see contexts c (put (head cs) (contexts c)) d (h (head cs) (contexts c))

  linked-other :
      (cs : List ℕ) (contexts : ℕ → ContextImpl) (d : ℕ)
      → Differs d cs
      → linked cs contexts d ≡ contexts d
  unfolding linked moved
  linked-other [] contexts d h = refl
  linked-other (c ∷ cs) contexts d (h, hs) =
      linked-other cs (moved c (head cs) contexts) d hs
      ∙ update-other contexts c d (put (head cs) (contexts c)) (==_comm d c ∙ h)

  pub linked-Chained :
      (get : ContextImpl → Option ℕ)
      → ((o : Option ℕ) (x : ContextImpl) → get (put o x) ≡ o)
      → (cs : List ℕ) (contexts : ℕ → ContextImpl) → NoDup cs
      → Chained (λ c. get (linked cs contexts c)) cs
  unfolding linked moved
  linked-Chained get h [] contexts k = tt
  linked-Chained get h (c ∷ cs) contexts (d, k) = (
    ap get (
          linked-other cs (moved c (head cs) contexts) c d
          ∙ update-same contexts c (put (head cs) (contexts c)))
        ∙ h (head cs) (contexts c),
    linked-Chained get h cs (moved c (head cs) contexts) k,
  )

-- A loop of finalize() for one direction: `joins` is the test of the types.
module _ (set : ℕ → Option ℕ → Pipeline → Outcome) (put : Option ℕ → ContextImpl → ContextImpl)
    (joins : ContextImpl → ContextImpl → Bool) (mismatch : String)
    (put-type : (o : Option ℕ) (x : ContextImpl) → (put o x).type_of ≡ x.type_of)
    (joins-types : (x y x' y' : ContextImpl)
      → x.type_of ≡ x'.type_of
      → y.type_of ≡ y'.type_of
      → joins x y ≡ joins x' y')
    (set-none : (c : ℕ) (p : Pipeline)
      → set c none p ≡ done (record p { contexts = moved put c none p.contexts }))
    (set-joins : (c d : ℕ) (p : Pipeline)
      → joins (p.contexts c) (p.contexts d) ≡ true
      → set c (some d) p ≡ done (record p { contexts = moved put c (some d) p.contexts }))
    (set-mismatch : (c d : ℕ) (p : Pipeline)
      → joins (p.contexts c) (p.contexts d) ≡ false
      → set c (some d) p ≡ throws mismatch p) where
  type-moved :
      (c : ℕ) (o : Option ℕ) (contexts : ℕ → ContextImpl) (d : ℕ)
      → (moved put c o contexts d).type_of ≡ (contexts d).type_of
  unfolding moved
  type-moved c o contexts d =
      see-update (λ (x : ContextImpl). x.type_of) contexts c (put o (contexts c)) d
        (put-type o (contexts c))

  fits-moved :
      (c : ℕ) (o : Option ℕ) (contexts : ℕ → ContextImpl) (cs : List ℕ)
      → fits joins (moved put c o contexts) cs ≡ fits joins contexts cs
  unfolding moved
  fits-moved c o contexts [] = refl
  fits-moved c o contexts (d ∷ []) = refl
  fits-moved c o contexts (d ∷ e ∷ cs) =
      rw
        (
          joins-types (moved put c o contexts d) (moved put c o contexts e) (contexts d)
              (contexts e) (type-moved c o contexts d) (type-moved c o contexts e),
          fits-moved c o contexts (e ∷ cs),
        )
        refl

  pub link_with-fits :
      (cs : List ℕ) (p : Pipeline)
      → fits joins p.contexts cs ≡ true
      → link_with set cs p ≡ done (record p { contexts = linked put cs p.contexts })
  unfolding link_with and_then linked
  link_with-fits [] p h = refl
  link_with-fits (c ∷ []) p h = set-none c p
  link_with-fits (c ∷ d ∷ cs) p h = elim (Bool-cases (joins (p.contexts c) (p.contexts d))) [
    | inl is ↦
        ap (λ o. and_then o (λ q. link_with set (d ∷ cs) q)) (set-joins c d p is)
        ∙ link_with-fits (d ∷ cs) (record p { contexts = moved put c (some d) p.contexts })
            (fits-moved c (some d) p.contexts (d ∷ cs) ∙ and-rest is h)
    | inr is ↦ absurd (
        true-ne-false (
          sym h
          ∙ and-first (joins (p.contexts c) (p.contexts d)) (fits joins p.contexts (d ∷ cs)) is))
  ]

  pub link_with-mismatch :
      (cs : List ℕ) (p : Pipeline)
      → fits joins p.contexts cs ≡ false
      → (q : Pipeline) × (link_with set cs p ≡ throws mismatch q)
  unfolding link_with and_then
  link_with-mismatch [] p h = absurd (true-ne-false h)
  link_with-mismatch (c ∷ []) p h = absurd (true-ne-false h)
  link_with-mismatch (c ∷ d ∷ cs) p h = elim (Bool-cases (joins (p.contexts c) (p.contexts d))) [
    | inl is ↦
        let (q, e) =
          link_with-mismatch (d ∷ cs) (record p { contexts = moved put c (some d) p.contexts })
            (fits-moved c (some d) p.contexts (d ∷ cs) ∙ and-rest-false is h) in
        (q, ap (λ o. and_then o (λ q. link_with set (d ∷ cs) q)) (set-joins c d p is) ∙ e)
    | inr is ↦ (p, ap (λ o. and_then o (λ q. link_with set (d ∷ cs) q)) (set-mismatch c d p is))
  ]
