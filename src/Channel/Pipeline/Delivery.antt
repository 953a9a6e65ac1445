-- ===== src/Channel/Pipeline/Delivery.antt =====
-- A pipeline that finalize() has linked delivers events in the order of its contexts.
use mathlib.Core.List.{reverse_aux, reverse_aux-eq}
use provider_agent_proxy.Common.{
  ℕ, zero, suc, ◌+◌, ◌*◌, ◌≤◌, arith, ◌≡◌, refl, ap, subst, ◌∙◌, true, List, [], ◌∷◌, map, reverse,
  Option, some, select, select-append, head, All-map, length, inl, inr, Bool-cases,
}
use provider_agent_proxy.Channel.Pipeline.{
  ContextImpl, dir_at, takes_in, takes_out, inbound_of, outbound_of,
}
use provider_agent_proxy.Channel.Pipeline.Events.{
  Inbound, Outbound, Fire, fire_in, fire_out, Step, called, can_fire, end_or, fire, fire_all,
  deliver,
}
use provider_agent_proxy.Channel.Pipeline.Linking.{Chained}
use provider_agent_proxy.Channel.Pipeline.Passage.{
  each, inward, outward, Chained-right, fire_all-each, fire_all-outs, select-outs, All-selected,
  fires_out, Chained-next, Chained-skip,
}

-- Handlers that fire outbound events only when an outbound event reaches them: those of `passes`.
module _ {M : Type 0} (react : ℕ → Fire M → List (Fire M))
    (passes : ℕ → Outbound M → List (Outbound M)) (contexts : ℕ → ContextImpl)
    (passes-on : (h : ℕ) (o : Outbound M) → react h (fire_out o) ≡ map fire_out (passes h o)) where
  abbrev go : ℕ → Fire M → Option ℕ → Option (List (Step M))
  go n e next = end_or (deliver react n contexts) e next

  deliver-called :
      (n c : ℕ) (e : Fire M) (s : List (Step M))
      → fire_all
          (deliver react n contexts)
          (contexts c)
          (select (can_fire (dir_at contexts c)) (react (contexts c).handler e))
        ≡ some s
      → deliver react (suc n) contexts c e ≡ some (called (contexts c).handler e ∷ s)
  unfolding deliver
  deliver-called n c e s h = rw h refl

  fire-out :
      (n c : ℕ) (o : Outbound M)
      → fire (deliver react n contexts) (contexts c) (fire_out o)
        ≡ go n (fire_out o) (contexts c).next_out
  unfolding fire
  fire-out n c o = refl

  fire-in :
      (n c : ℕ) (i : Inbound M)
      → fire (deliver react n contexts) (contexts c) (fire_in i)
        ≡ go n (fire_in i) (contexts c).next_in
  unfolding fire
  fire-in n c i = refl

  pub deliver-outward :
      (n : ℕ) (cs : List ℕ) (o : Outbound M)
      → Chained (λ c. (contexts c).next_out) (outbound_of contexts cs)
      → length cs ≤ n
      → go n (fire_out o) (head (outbound_of contexts cs))
        ≡ some (outward react passes contexts cs o)
  deliver-outward n [] o chain enough = refl
  deliver-outward zero (c ∷ cs) o chain enough = absurd (omega arith)
  deliver-outward (suc n) (c ∷ cs) o chain enough =
      elim (Bool-cases (takes_out (dir_at contexts c))) [
        | inl is ↦
            let (link, rest) =
              Chained-next (λ d. (contexts d).next_out) (λ d. takes_out (dir_at contexts d)) c cs is
                chain in
            rw is (
              deliver-called n c (fire_out o)
                (each (λ o'. outward react passes contexts cs o') (passes (contexts c).handler o))
                (rw
                  (
                    passes-on (contexts c).handler o,
                    select-outs (dir_at contexts c) (passes (contexts c).handler o) is,
                  )
                  (fire_all-outs (deliver react n contexts) (contexts c)
                    (λ o'. outward react passes contexts cs o') (passes (contexts c).handler o)
                    (λ o'.
                      fire-out n c o'
                      ∙ ap (go n (fire_out o')) link
                      ∙ deliver-outward n cs o' rest (omega arith)))))
        | inr is ↦ rw is (
            deliver-outward (suc n) cs o
              (Chained-skip (λ d. (contexts d).next_out) (λ d. takes_out (dir_at contexts d)) c cs
                is chain)
              (omega arith))
      ]

  -- The links of the contexts behind: those of the list in which they stand.
  behind-Chained :
      (behind ahead : List ℕ)
      → Chained (λ c. (contexts c).next_out) (outbound_of contexts (reverse_aux ahead behind))
      → Chained (λ c. (contexts c).next_out) (outbound_of contexts behind)
  behind-Chained behind ahead chain =
      Chained-right (λ c. (contexts c).next_out) (outbound_of contexts (reverse ahead))
        (outbound_of contexts behind)
        (subst (Chained (λ c. (contexts c).next_out))
          (ap (outbound_of contexts) (reverse_aux-eq ahead behind)
            ∙ select-append (λ c. takes_out (dir_at contexts c)) (reverse ahead) behind)
          chain)

  -- What an event becomes that a handler fires when an inbound event reaches it.
  abbrev answer : ℕ → List ℕ → List ℕ → Fire M → List (Step M)
  answer c behind ahead = λ e. elim e [
    | fire_in j ↦ inward react passes contexts (c ∷ behind) ahead j
    | fire_out o ↦ outward react passes contexts behind o
  ]

  answered :
      (n c : ℕ) (behind ahead : List ℕ)
      → takes_in (dir_at contexts c) ≡ true
      → Chained (λ c. (contexts c).next_in) (inbound_of contexts (c ∷ ahead))
      → Chained (λ c. (contexts c).next_out) (outbound_of contexts (reverse_aux ahead (c ∷ behind)))
      → length behind ≤ n
      → ((j : Inbound M)
          → Chained (λ c. (contexts c).next_in) (inbound_of contexts ahead)
          → go n (fire_in j) (head (inbound_of contexts ahead))
            ≡ some (inward react passes contexts (c ∷ behind) ahead j))
      → (e : Fire M) → can_fire (dir_at contexts c) e ≡ true
      → fire (deliver react n contexts) (contexts c) e ≡ some (answer c behind ahead e)
  answered n c behind ahead is ins outs enough next (fire_in j) can =
      let (link, rest) =
        Chained-next (λ d. (contexts d).next_in) (λ d. takes_in (dir_at contexts d)) c ahead is
          ins in
      fire-in n c j ∙ ap (go n (fire_in j)) link ∙ next j rest
  answered n c behind ahead is ins outs enough next (fire_out o) can =
      let (link, rest) =
        Chained-next (λ d. (contexts d).next_out) (λ d. takes_out (dir_at contexts d)) c behind
          (fires_out (dir_at contexts c) o can) (behind-Chained (c ∷ behind) ahead outs) in
      fire-out n c o ∙ ap (go n (fire_out o)) link ∙ deliver-outward n behind o rest enough

  pub deliver-inward :
      (n : ℕ) (behind ahead : List ℕ) (i : Inbound M)
      → Chained (λ c. (contexts c).next_in) (inbound_of contexts ahead)
      → Chained (λ c. (contexts c).next_out) (outbound_of contexts (reverse_aux ahead behind))
      → 2 * length ahead + length behind ≤ n
      → go n (fire_in i) (head (inbound_of contexts ahead))
        ≡ some (inward react passes contexts behind ahead i)
  deliver-inward n behind [] i ins outs enough = refl
  deliver-inward zero behind (c ∷ ahead) i ins outs enough = absurd (omega arith)
  deliver-inward (suc n) behind (c ∷ ahead) i ins outs enough =
      elim (Bool-cases (takes_in (dir_at contexts c))) [
        | inl is ↦ rw is (
            deliver-called n c (fire_in i)
              (each (answer c behind ahead)
                (select (can_fire (dir_at contexts c)) (react (contexts c).handler (fire_in i))))
              (fire_all-each (deliver react n contexts) (contexts c) (answer c behind ahead)
                (select (can_fire (dir_at contexts c)) (react (contexts c).handler (fire_in i)))
                (All-map (λ e. can_fire (dir_at contexts c) e ≡ true)
                  (λ e.
                    fire (deliver react n contexts) (contexts c) e ≡ some (answer c behind ahead e))
                  (select (can_fire (dir_at contexts c)) (react (contexts c).handler (fire_in i)))
                  (answered n c behind ahead is ins outs (omega arith)
                    (λ j rest. deliver-inward n (c ∷ behind) ahead j rest outs (omega arith)))
                  (All-selected (can_fire (dir_at contexts c))
                    (react (contexts c).handler (fire_in i))))))
        | inr is ↦ rw is (
            deliver-inward (suc n) (c ∷ behind) ahead i
              (Chained-skip (λ d. (contexts d).next_in) (λ d. takes_in (dir_at contexts d)) c ahead
                is ins)
              outs (omega arith))
      ]
