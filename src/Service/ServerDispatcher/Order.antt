-- ===== src/Service/ServerDispatcher/Order.antt =====
-- The order in which the responses are written.
use mathlib.Core.Option.{none-ne-some}
use provider_agent_proxy.Common.{
  ℕ, zero, suc, ◌+◌, ◌^◌, ◌≤◌, ◌<◌, ◌≡◌, ◌⊎◌, inl, inr, refl, sym, ◌∙◌, ap, List, [], ◌∷◌, ◌++◌,
  none, some, arith, Bool-cases, Option-cases, All, All-map, Differs, ◌==◌, ==_iff, update-other,
}
use provider_agent_proxy.Service.ServerDispatcher.{
  PipelinedServerDispatcher, next_id, written, send_next, send_loop,
}

module _ (R : Type 0) (answer : ℕ → R) where
  -- The responses to so many requests from the given one on.
  abbrev pub answers : ℕ → ℕ → List R
  answers i zero = []
  answers i (suc n) = answer i ∷ answers (i + 1) n

  -- What is stored is the response to a request that is not yet written, and a request of the list
  -- is written or stored, and no other is.
  unfoldable pub Consistent : List ℕ → PipelinedServerDispatcher R → Type 0
  Consistent responded s =
      (s.last_written_id < s.request_id)
      × ((i : ℕ) (r : R)
          → s.responses i ≡ some r
          → (r ≡ answer i) × (s.last_written_id < i) × (i < s.request_id))
      × All (λ i. (i ≤ s.last_written_id) ⊎ ((r : R) × (s.responses i ≡ some r))) responded
      × ((i : ℕ) → Differs i responded → (s.responses i ≡ none) × (0 < i → s.last_written_id < i))

  next_id-small :
      (s : PipelinedServerDispatcher R)
      → s.last_written_id + 1 < 2 ^ 32
      → next_id R s ≡ s.last_written_id + 1
  next_id-small s small = omega arith

  written-Consistent :
      (responded : List ℕ) (s : PipelinedServerDispatcher R) (r : R)
      → next_id R s ≡ s.last_written_id + 1
      → s.responses (next_id R s) ≡ some r
      → Consistent responded s
      → Consistent responded (written R s)
  unfolding Consistent
  written-Consistent responded s r next e (less, stored, known, unknown) =
      let (_, _, early) = stored (next_id R s) r e in
      (
        early,
        λ i q h. elim (Bool-cases (i == next_id R s)) [
          | inl is ↦ absurd (none-ne-some q (sym (rw is refl) ∙ h))
          | inr is ↦
              let (same, low, high) =
                stored i q (sym (update-other s.responses (next_id R s) i none is) ∙ h) in
              (same, ground arith, high)
        ],
        All-map _ _ responded
            (λ i h. elim (Bool-cases (i == next_id R s)) [
              | inl is ↦ inl (ground arith)
              | inr is ↦ elim h [
                | inl low ↦ inl (omega arith)
                | inr (q, k) ↦ inr (q, update-other s.responses (next_id R s) i none is ∙ k)
              ]
            ])
            known,
        λ i h. elim (Bool-cases (i == next_id R s)) [
          | inl is ↦ absurd (
              none-ne-some r
                (sym (unknown i h).0 ∙ ap s.responses ((==_iff i (next_id R s)).0 is) ∙ e))
          | inr is ↦ (
            update-other s.responses (next_id R s) i none is ∙ (unknown i h).0,
            λ positive. let low = (unknown i h).1 positive in ground arith,
          )
        ],
      )

  add_zero : (i : ℕ) → i + 0 ≡ i
  add_zero i = omega arith

  add_suc : (i k : ℕ) → i + suc k ≡ i + 1 + k
  add_suc i k = omega arith

  zero_add : (l : ℕ) → 0 + l ≡ l
  zero_add l = omega arith

  suc_add : (k l : ℕ) → suc k + l ≡ suc (k + l)
  suc_add k l = omega arith

  pub answers-add : (i k l : ℕ) → answers i k ++ answers (i + k) l ≡ answers i (k + l)
  answers-add i zero l = ap (λ j. answers j l) (add_zero i) ∙ ap (answers i) (sym (zero_add l))
  answers-add i (suc k) l =
      ap (λ out. answer i ∷ out)
        (ap (λ j. answers (i + 1) k ++ answers j l) (add_suc i k) ∙ answers-add (i + 1) k l)
      ∙ ap (answers i) (sym (suc_add k l))

  -- The responses to the next requests, in their order.
  unfoldable pub Sent : PipelinedServerDispatcher R → PipelinedServerDispatcher R × List R → Type 0
  Sent s (s', out) =
      (k : ℕ) × (out ≡ answers (s.last_written_id + 1) k)
      × (s'.last_written_id ≡ s.last_written_id + k)

  -- The response to the next request is not there.
  abbrev pub Drained : PipelinedServerDispatcher R → Type 0
  Drained s = s.responses (s.last_written_id + 1) ≡ none

  -- The state and the responses that a step leaves.
  unfoldable pub Settled :
      List ℕ → PipelinedServerDispatcher R → PipelinedServerDispatcher R × List R → Type 0
  Settled responded s (s', out) =
      Sent s (s', out) × (s'.request_id ≡ s.request_id) × Consistent responded s' × Drained s'

  send_loop-found :
      (fuel : ℕ) (s : PipelinedServerDispatcher R) (r : R)
      → s.responses (next_id R s) ≡ some r
      → send_loop R (suc fuel) s
        ≡ ((send_loop R fuel (written R s)).0, r ∷ (send_loop R fuel (written R s)).1)
  unfolding send_loop
  send_loop-found fuel s r e = ap (λ o. send_next R o s (send_loop R fuel (written R s))) e

  send_loop-none :
      (fuel : ℕ) (s : PipelinedServerDispatcher R)
      → s.responses (next_id R s) ≡ none
      → send_loop R (suc fuel) s ≡ (s, [])
  unfolding send_loop
  send_loop-none fuel s e = ap (λ o. send_next R o s (send_loop R fuel (written R s))) e

  pub Consistent-less :
      (responded : List ℕ) (s : PipelinedServerDispatcher R)
      → Consistent responded s
      → s.last_written_id < s.request_id
  unfolding Consistent
  Consistent-less responded s c = c.0

  pub send_loop-Settled :
      (fuel : ℕ) (responded : List ℕ) (s : PipelinedServerDispatcher R)
      → Consistent responded s
      → s.request_id ≤ fuel + s.last_written_id
      → s.request_id < 2 ^ 32
      → Settled responded s (send_loop R fuel s)
  unfolding Settled Sent Consistent
  send_loop-Settled zero responded s c enough small = absurd (let less = c.0 in omega arith)
  send_loop-Settled (suc fuel) responded s c enough small =
      let less = c.0 in
      let next = next_id-small s (omega arith) in
      elim (Option-cases (s.responses (next_id R s))) [
        | inl e ↦
            simp (send_loop-none fuel s e)
              ((0, refl, omega arith), refl, c, ap s.responses (sym next) ∙ e)
        | inr (r, e) ↦
            let ((k, out, last), request, c', drained) =
              send_loop-Settled fuel responded (written R s)
                (written-Consistent responded s r next e c) (omega arith) small in
            simp (send_loop-found fuel s r e) (
              (
                suc k,
                ap (λ q. q ∷ (send_loop R fuel (written R s)).1)
                      ((c.1 (next_id R s) r e).0 ∙ ap answer next)
                    ∙ ap (λ o. answer (s.last_written_id + 1) ∷ o)
                        (out ∙ ap (λ j. answers (j + 1) k) next),
                omega arith,
              ),
              request,
              c',
              drained,
            )
      ]
