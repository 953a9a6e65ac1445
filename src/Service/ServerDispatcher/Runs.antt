-- ===== src/Service/ServerDispatcher/Runs.antt =====
-- Requests and responses in any order of completion.
use mathlib.Core.Option.{none-ne-some, some-injective}
use provider_agent_proxy.Common.{
  ℕ, ◌+◌, ◌-◌, ◌%◌, ◌^◌, ◌≤◌, ◌<◌, ◌≡◌, inl, inr, refl, sym, ◌∙◌, ap, true, false, List, [], ◌∷◌,
  ◌++◌, some, update, arith, Bool-cases, All-map, Differs, ◌==◌, ==_iff, update-other, update-same,
}
use provider_agent_proxy.Service.ServerDispatcher.{
  PipelinedServerDispatcher, new_dispatcher, send_responses, read, respond, Event, reads, responds,
  run,
}
use provider_agent_proxy.Service.ServerDispatcher.Order.{
  answers, answers-add, Consistent, Consistent-less, Settled, Sent, Drained, send_loop-Settled,
}

-- Each response is to a request that has come in and has no response yet, and the numbers of the
-- requests do not reach 2 ^ 32. The first number is that of the next request, the list those that
-- have a response.
abbrev pub Fits : List Event → ℕ → List ℕ → Type 0
Fits [] n responded = Unit {0}
Fits (reads ∷ events) n responded = (n + 1 < 2 ^ 32) × Fits events (n + 1) responded
Fits (responds i ∷ events) n responded =
    (0 < i) × (i < n) × Differs i responded × Fits events n (i ∷ responded)

-- The requests that have a response after the events.
abbrev pub responded_after : List Event → List ℕ → List ℕ
responded_after [] responded = responded
responded_after (reads ∷ events) responded = responded_after events responded
responded_after (responds i ∷ events) responded = responded_after events (i ∷ responded)

update_is : {A : Type 0} (f : ℕ → A) (i j : ℕ) (a : A) → (j == i) ≡ true → update f i a j ≡ a
update_is f i j a h = rw h refl

==_flip : (i j : ℕ) → (i == j) ≡ false → (j == i) ≡ false
==_flip i j h = ground arith

module _ (R : Type 0) (answer : ℕ → R) where
  stored-Consistent :
      (responded : List ℕ) (s : PipelinedServerDispatcher R) (i : ℕ)
      → 0 < i
      → i < s.request_id
      → Differs i responded
      → Consistent R answer responded s
      → Consistent R answer
          (i ∷ responded)
          (record s { responses = update s.responses i (some (answer i)) })
  unfolding Consistent
  stored-Consistent responded s i positive below differs (less, stored, known, unknown) = (
    less,
    λ j r h. elim (Bool-cases (j == i)) [
      | inl is ↦
          let same = (==_iff j i).0 is in
          let low = (unknown i differs).1 positive in
          (
            sym (some-injective _ _ (sym (update_is s.responses i j (some (answer i)) is) ∙ h))
                ∙ ap answer (sym same),
            omega arith,
            omega arith,
          )
      | inr is ↦ stored j r (sym (update-other s.responses i j (some (answer i)) is) ∙ h)
    ],
    (
      inr (answer i, update-same s.responses i (some (answer i))),
      All-map _ _ responded
          (λ j h. elim (Bool-cases (j == i)) [
            | inl is ↦ inr (answer i, rw is refl)
            | inr is ↦ elim h [
              | inl low ↦ inl low
              | inr (r, k) ↦ inr (r, update-other s.responses i j (some (answer i)) is ∙ k)
            ]
          ])
          known,
    ),
    λ j (other, h).
        let (e, low) = unknown j h in
        (update-other s.responses i j (some (answer i)) (==_flip i j other) ∙ e, low),
  )

  respond-Settled :
      (responded : List ℕ) (s : PipelinedServerDispatcher R) (i : ℕ)
      → 0 < i
      → i < s.request_id
      → s.request_id < 2 ^ 32
      → Differs i responded
      → Consistent R answer responded s
      → Settled R answer (i ∷ responded) s (respond R i (answer i) s)
  unfolding respond send_responses Settled Sent
  respond-Settled responded s i positive below small differs c =
      let less = Consistent-less R answer responded s c in
      send_loop-Settled R answer ((s.request_id + 2 ^ 32 - s.last_written_id) % 2 ^ 32)
        (i ∷ responded) (record s { responses = update s.responses i (some (answer i)) })
        (stored-Consistent responded s i positive below differs c) (omega arith) small

  read-Consistent :
      (responded : List ℕ) (s : PipelinedServerDispatcher R)
      → s.request_id + 1 < 2 ^ 32
      → Consistent R answer responded s
      → Consistent R answer responded (read R s)
  unfolding Consistent read
  read-Consistent responded s small (less, stored, known, unknown) = (
    omega arith,
    λ i r h. let (same, low, high) = stored i r h in (same, low, omega arith),
    known,
    unknown,
  )

  Moved : List ℕ → PipelinedServerDispatcher R → PipelinedServerDispatcher R × List R → Type 0
  Moved responded s (s', out) =
      Sent R answer s (s', out) × Consistent R answer responded s' × Drained R answer s'

  run-Moved :
      (events : List Event) (s : PipelinedServerDispatcher R) (n : ℕ) (responded : List ℕ)
      → s.request_id ≡ n
      → n < 2 ^ 32
      → Fits events n responded
      → Consistent R answer responded s
      → Drained R answer s
      → Moved (responded_after events responded) s (run R answer events s)
  unfolding Moved Sent run read Settled
  run-Moved [] s n responded same small fits c drained = ((0, refl, omega arith), c, drained)
  run-Moved (reads ∷ events) s n responded same small (more, fits) c drained =
      run-Moved events (read R s) (n + 1) responded (omega arith) more fits
        (read-Consistent responded s (omega arith) c) drained
  run-Moved (responds i ∷ events) s n responded same small (positive, below, differs, fits) c
        drained =
      let ((k, out, last), request, c', drained') =
        respond-Settled responded s i positive (omega arith) (omega arith) differs c in
      let s' = (respond R i (answer i) s).0 in
      let ((l, rest, last'), c'', drained'') =
        run-Moved events s' n (i ∷ responded) (request ∙ same) small fits c' drained' in
      (
        (
          k + l,
          ap (λ o. o ++ (run R answer events s').1) out
              ∙ ap (λ o. answers R answer (s.last_written_id + 1) k ++ o)
                  (rest ∙ ap (λ j. answers R answer j l) (omega arith))
              ∙ answers-add R answer (s.last_written_id + 1) k l,
          omega arith,
        ),
        c'',
        drained'',
      )

  new-Consistent : Consistent R answer [] (new_dispatcher R)
  unfolding Consistent
  new-Consistent =
      (omega arith, λ i r h. absurd (none-ne-some r h), tt, λ i h. (refl, λ positive. positive))

  Consistent-next :
      (responded : List ℕ) (s : PipelinedServerDispatcher R)
      → Consistent R answer responded s
      → Drained R answer s
      → Differs (s.last_written_id + 1) responded
  unfolding Consistent
  Consistent-next responded s (less, stored, known, unknown) drained =
      All-map _ _ responded
        (λ i h. elim (Bool-cases (i == s.last_written_id + 1)) [
          | inl is ↦ elim h [
            | inl low ↦ absurd (ground arith)
            | inr (r, k) ↦ absurd (
                none-ne-some r (
                  sym drained ∙ ap s.responses (sym ((==_iff i (s.last_written_id + 1)).0 is)) ∙ k))
          ]
          | inr is ↦ is
        ])
        known

  Consistent-below :
      (responded : List ℕ) (s : PipelinedServerDispatcher R) (i : ℕ)
      → Consistent R answer responded s
      → 0 < i
      → i ≤ s.last_written_id
      → ¬ Differs i responded
  unfolding Consistent
  Consistent-below responded s i (less, stored, known, unknown) positive low h =
      let above = (unknown i h).1 positive in absurd (omega arith)

  -- From a new dispatcher, where each response is the first to a request that has come in and the
  -- requests are fewer than 2 ^ 32 - 1: in whatever order the service completes the requests, the
  -- responses that have been written are those to the requests 1 to k in this order, where all of
  -- these have a response and the request k + 1 has none yet.
  pub run-answers :
      (events : List Event)
      → Fits events 1 []
      → (k : ℕ) × ((run R answer events (new_dispatcher R)).1 ≡ answers R answer 1 k)
        × ((i : ℕ) → 0 < i → i ≤ k → ¬ Differs i (responded_after events []))
        × Differs (k + 1) (responded_after events [])
  unfolding Moved Sent
  run-answers events fits =
      let s = (run R answer events (new_dispatcher R)).0 in
      let ((k, out, last), c, drained) =
        run-Moved events (new_dispatcher R) 1 [] refl (omega arith) fits new-Consistent refl in
      let same : k ≡ s.last_written_id = omega arith in
      (
        s.last_written_id,
        out ∙ ap (answers R answer 1) same,
        λ i positive low. Consistent-below (responded_after events []) s i c positive low,
        Consistent-next (responded_after events []) s c drained,
      )
