-- ===== src/Channel/Pipeline/Matching.antt =====
-- What `remove` does, which removes the contexts that match.
use mathlib.Core.List.{append_assoc}
use provider_agent_proxy.Common.{
  ℕ, suc, arith, ◌≡◌, refl, sym, ap, subst, ◌∙◌, Bool, true, false, not, ◌||◌, List, [], ◌∷◌, ◌++◌,
  Option, some, inl, inr, Bool-cases, length, length-append, get_elem?, select, ◌⊎◌,
}
use provider_agent_proxy.Channel.Pipeline.{
  Pipeline, Outcome, done, throws, and_then, detach_pipeline,
}
use provider_agent_proxy.Channel.Pipeline.Removal.{matches, remove_loop, remove_helper}
use provider_agent_proxy.Channel.Pipeline.Listing.{IsListed, without}
use provider_agent_proxy.Channel.Pipeline.Removing.{
  take_next, rest_of, remove_at-listed, without-IsListed,
}

-- The test of removeHelper, and whether a context of a list passes it.
abbrev pub hit : ℕ → Option ℕ → Pipeline → ℕ → Bool
hit k wanted p c = matches k wanted (p.contexts c)

abbrev pub any : (ℕ → Bool) → List ℕ → Bool
any f [] = false
any f (c ∷ cs) = f c || any f cs

abbrev pub kept : ℕ → Option ℕ → Pipeline → List ℕ → List ℕ
kept k wanted p cs = select (λ c. not (hit k wanted p c)) cs

hit-without :
    (i c : ℕ) (p : Pipeline) (k : ℕ) (wanted : Option ℕ) (d : ℕ)
    → hit k wanted (without i c p) d ≡ hit k wanted p d
unfolding detach_pipeline
hit-without i c p k wanted d = ground arith

-- How a loop of removeHelper ends that has left `before` and has still to look at `after`.
data Removed (k : ℕ) (wanted : Option ℕ) (removed : Bool) (before after : List ℕ) (p : Pipeline)
    : Outcome → Type 0 where
  all_removed :
      (q : Pipeline)
      → removed || any (hit k wanted p) after ≡ true
      → IsListed q
      → q.ctxs ≡ before ++ kept k wanted p after
      → Removed k wanted removed before after p (done q)
  none_found :
      removed || any (hit k wanted p) after ≡ false
      → Removed k wanted removed before after p (throws "No such handler in pipeline" p)

module _ (k : ℕ) (wanted : Option ℕ) where
  any-without :
      (i c : ℕ) (p : Pipeline) (cs : List ℕ)
      → any (hit k wanted (without i c p)) cs ≡ any (hit k wanted p) cs
  any-without i c p [] = refl
  any-without i c p (d ∷ cs) = rw (hit-without i c p k wanted d, any-without i c p cs) refl

  kept-without :
      (i c : ℕ) (p : Pipeline) (cs : List ℕ) → kept k wanted (without i c p) cs ≡ kept k wanted p cs
  kept-without i c p [] = refl
  kept-without i c p (d ∷ cs) = rw (hit-without i c p k wanted d, kept-without i c p cs) refl

  -- The loop with a context that it removes, and with one that it leaves.
  Removed-hit :
      (i : ℕ) (removed : Bool) (before after : List ℕ) (c : ℕ) (p : Pipeline) (o : Outcome)
      → hit k wanted p c ≡ true
      → Removed k wanted true before after (without i c p) o
      → Removed k wanted removed before (c ∷ after) p o
  Removed-hit i removed before after c p o is (all_removed q some_hit l now) =
      all_removed q (rw is (or-true removed)) l
        (now ∙ ap (◌++◌ before) (kept-without i c p after ∙ sym (skipped is)))
    where
      or-true : (b : Bool) → b || true ≡ true
      or-true true = refl
      or-true false = refl

      skipped : hit k wanted p c ≡ true → kept k wanted p (c ∷ after) ≡ kept k wanted p after
      skipped h = rw h
  Removed-hit i removed before after c p o is (none_found never) = absurd (ground arith)

  Removed-miss :
      (removed : Bool) (before after : List ℕ) (c : ℕ) (p : Pipeline) (o : Outcome)
      → hit k wanted p c ≡ false
      → Removed k wanted removed (before ++ (c ∷ [])) after p o
      → Removed k wanted removed before (c ∷ after) p o
  Removed-miss removed before after c p o is (all_removed q some_hit l now) =
      all_removed q (rw is some_hit) l (
        now
        ∙ append_assoc before (c ∷ []) (kept k wanted p after)
        ∙ ap (◌++◌ before) (sym (left is)))
    where
      left : hit k wanted p c ≡ false → kept k wanted p (c ∷ after) ≡ c ∷ kept k wanted p after
      left h = rw h
  Removed-miss removed before after c p o is (none_found never) = none_found (rw is never)

  remove_loop-hit :
      (n i c : ℕ) (removed : Bool) (p : Pipeline)
      → IsListed p
      → get_elem? p.ctxs i ≡ some c
      → hit k wanted p c ≡ true
      → remove_loop (suc n) i k wanted removed p ≡ remove_loop n i k wanted true (without i c p)
  unfolding remove_loop and_then
  remove_loop-hit n i c removed p l at_i is =
      rw (remove_loop, at_i, is, remove_at-listed i c p l at_i) refl

  remove_loop-miss :
      (n i c : ℕ) (removed : Bool) (p : Pipeline)
      → get_elem? p.ctxs i ≡ some c
      → hit k wanted p c ≡ false
      → remove_loop (suc n) i k wanted removed p ≡ remove_loop n (suc i) k wanted removed p
  unfolding remove_loop
  remove_loop-miss n i c removed p at_i is = rw (remove_loop, at_i, is) refl

  remove_loop-Removed :
      (after before : List ℕ) (removed : Bool) (p : Pipeline)
      → IsListed p
      → p.ctxs ≡ before ++ after
      → Removed k wanted removed before after p
          (remove_loop (length after) (length before) k wanted removed p)
  unfolding remove_loop
  remove_loop-Removed [] before true p l is = all_removed p refl l is
  remove_loop-Removed [] before false p l is = none_found refl
  remove_loop-Removed (c ∷ after) before removed p l is =
      let at_i = ap (λ cs. get_elem? cs (length before)) is ∙ (take_next before c after).0 in
      elim (Bool-cases (hit k wanted p c)) [
        | inl hits ↦
            Removed-hit (length before) removed before after c p
              (remove_loop (suc (length after)) (length before) k wanted removed p) hits
              (subst (Removed k wanted true before after (without (length before) c p))
                (sym (remove_loop-hit (length after) (length before) c removed p l at_i hits))
                (remove_loop-Removed after before true (without (length before) c p)
                  (without-IsListed (length before) c p l at_i) (rest_of before c after p is)))
        | inr misses ↦
            Removed-miss removed before after c p
              (remove_loop (suc (length after)) (length before) k wanted removed p) misses
              (subst (Removed k wanted removed (before ++ (c ∷ [])) after p)
                (ap (λ i. remove_loop (length after) i k wanted removed p)
                    (length-append before (c ∷ []) ∙ omega arith)
                  ∙ sym (remove_loop-miss (length after) (length before) c removed p at_i misses))
                (remove_loop-Removed after (before ++ (c ∷ [])) removed p l
                  (is ∙ sym (append_assoc before (c ∷ []) after))))
      ]

-- From a pipeline whose lists agree: `remove` leaves the contexts that do not match, in their order,
-- and lists that agree again, if any context matches; and throws, and changes nothing, otherwise. So
-- no CHECK of removeAt() fails.
pub remove_helper-IsListed :
    (k : ℕ) (wanted : Option ℕ) (p : Pipeline)
    → IsListed p
    → ((q : Pipeline) × (any (hit k wanted p) p.ctxs ≡ true)
        × (remove_helper k wanted p ≡ done q)
        × IsListed q
        × (q.ctxs ≡ kept k wanted p p.ctxs))
      ⊎ ((any (hit k wanted p) p.ctxs ≡ false)
          × (remove_helper k wanted p ≡ throws "No such handler in pipeline" p))
unfolding remove_helper
remove_helper-IsListed k wanted p l =
    cases (remove_helper k wanted p) (remove_loop-Removed k wanted p.ctxs [] false p l refl)
  where
    cases :
        (o : Outcome)
        → Removed k wanted false [] p.ctxs p o
        → ((q : Pipeline) × (any (hit k wanted p) p.ctxs ≡ true)
            × (o ≡ done q)
            × IsListed q
            × (q.ctxs ≡ kept k wanted p p.ctxs))
          ⊎ ((any (hit k wanted p) p.ctxs ≡ false) × (o ≡ throws "No such handler in pipeline" p))
    cases o (all_removed q some_hit l' now) = inl (q, some_hit, refl, l', now)
    cases o (none_found never) = inr (never, refl)
