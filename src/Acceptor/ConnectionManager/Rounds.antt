-- ===== src/Acceptor/ConnectionManager/Rounds.antt =====
-- The rounds of a drain.
use mathlib.Core.List.{append_assoc, append-nil}
use provider_agent_proxy.Common.{
  ℕ, zero, suc, ◌≡◌, refl, sym, ap, subst, ◌∙◌, Bool, true, false, not, List, [], ◌∷◌, ◌++◌, Option,
  if◌then◌else◌, head, take, drop, select, NoDup, NoDup-before, NoDup-less,
}
use provider_agent_proxy.Acceptor.ConnectionManager.{ConnectionManager, next_of}
use provider_agent_proxy.Acceptor.ConnectionManager.Draining.{visit, drain_loop}
use provider_agent_proxy.Acceptor.ConnectionManager.Visits.{
  told, Forced, passed, Settings, visit-settings, visit-Visited,
}
use provider_agent_proxy.Acceptor.ConnectionManager.Lists.{next_of-middle}

-- The connections that do not leave when they are told to close.
abbrev pub staying : (ℕ → Bool) → List ℕ → List ℕ
staying closes cs = select (λ c. not (closes c)) cs

module _ (closes : ℕ → Bool) where
  NoDup-passed :
      (c : ℕ) (done todo : List ℕ)
      → NoDup (done ++ (c ∷ todo))
      → NoDup (passed closes c done ++ todo)
  NoDup-passed c done todo h =
      elim (not (closes c)) as (λ b. NoDup ((if b then done ++ (c ∷ []) else done) ++ todo)) [
        | true ↦ subst NoDup (sym (append_assoc done (c ∷ []) todo)) h
        | false ↦ NoDup-less done todo c h
      ]

  passed-select :
      (c : ℕ) (done cs : List ℕ)
      → passed closes c done ++ staying closes cs ≡ done ++ staying closes (c ∷ cs)
  passed-select c done cs =
      elim (not (closes c))
        as (λ b.
          (if b then done ++ (c ∷ []) else done) ++ staying closes cs
          ≡ done ++ (if b then c ∷ staying closes cs else staying closes cs)) [
            | true ↦ append_assoc done (c ∷ []) (staying closes cs)
            | false ↦ refl
          ]

  -- What the loop does, with `todo` still to visit.
  pub record Looped (n : ℕ) (done todo : List ℕ) (m : ConnectionManager)
      (r : ConnectionManager × Option ℕ) : Type 0 where
    pub tells : told r.0.calls ≡ told m.calls ++ take n todo
    pub lists : r.0.conns ≡ (done ++ staying closes (take n todo)) ++ drop n todo
    pub stops : r.1 ≡ head (drop n todo)
    pub distinct : NoDup ((done ++ staying closes (take n todo)) ++ drop n todo)

  pub drain_loop-Looped :
      (n : ℕ) (done todo : List ℕ) (m : ConnectionManager)
      → Forced m
      → m.conns ≡ done ++ todo
      → NoDup (done ++ todo)
      → Looped n done todo m (drain_loop closes n (head todo) m)
  unfolding drain_loop
  drain_loop-Looped zero done [] m k is h = record {
    tells = sym (append-nil (told m.calls));
    lists = is ∙ ap (λ l. l ++ []) (sym (append-nil done));
    stops = refl;
    distinct = subst (λ l. NoDup (l ++ [])) (sym (append-nil done)) h;
  }
  drain_loop-Looped (suc n) done [] m k is h = record {
    tells = sym (append-nil (told m.calls));
    lists = is ∙ ap (λ l. l ++ []) (sym (append-nil done));
    stops = refl;
    distinct = subst (λ l. NoDup (l ++ [])) (sym (append-nil done)) h;
  }
  drain_loop-Looped zero done (c ∷ todo) m k is h = record {
    tells = sym (append-nil (told m.calls));
    lists = is ∙ ap (λ l. l ++ (c ∷ todo)) (sym (append-nil done));
    stops = refl;
    distinct = subst (λ l. NoDup (l ++ (c ∷ todo))) (sym (append-nil done)) h;
  }
  drain_loop-Looped (suc n) done (c ∷ todo) m k is h =
      let v = visit-Visited closes c m done todo k is h in
      let next = ap (next_of c) is ∙ next_of-middle c done todo (NoDup-before done todo c h) in
      let kept = visit-settings closes c m in
      let same : Forced (visit closes c m) = (
        ap (λ (x : Settings). x.shutdown_state) kept ∙ k.0,
        ap (λ (x : Settings). x.notify_pending_shutdown) kept ∙ k.1,
      ) in
      let d =
        drain_loop-Looped n (passed closes c done) todo (visit closes c m) same v.lists
          (NoDup-passed c done todo h) in
      subst (λ it. Looped (suc n) done (c ∷ todo) m (drain_loop closes n it (visit closes c m)))
        (sym next)
        (record {
          tells =
              d.tells
              ∙ ap (λ l. l ++ take n todo) v.tells
              ∙ append_assoc (told m.calls) (c ∷ []) (take n todo);
          lists = d.lists ∙ ap (λ l. l ++ drop n todo) (passed-select c done (take n todo));
          stops = d.stops;
          distinct =
              subst (λ l. NoDup (l ++ drop n todo)) (passed-select c done (take n todo)) d.distinct;
        })
