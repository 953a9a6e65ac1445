-- ===== src/Codec/Decoder/Fragments.antt =====
-- Reading a stream in pieces, as the socket delivers it, against reading it at once.
use mathlib.Core.List.{append_assoc, append-nil}
use native.Mathlib.Nat.{add_comm}
use provider_agent_proxy.Common.{
  ℕ, zero, suc, ◌+◌, ◌≡◌, refl, sym, ap, ◌∙◌, subst, map, ◌⊎◌, inl, inr, List, [], ◌∷◌, ◌++◌, none,
  some, arith, Option-cases,
}
use provider_agent_proxy.Codec.Decoder.{
  ReadError, Outcome, Decode, Event, fire_read, fire_read_exception, Run, done, thrown, out_of_fuel,
  after, errors, read_loop,
}

abbrev pub IsRead : Event → Type 0
IsRead (fire_read m) = Unit {0}
IsRead (fire_read_exception e) = ⊥

abbrev pub AllRead : List Event → Type 0
AllRead [] = Unit {0}
AllRead (e ∷ es) = IsRead e × AllRead es

pub map-AllRead : (ms : List (List ℕ)) → AllRead (map fire_read ms)
map-AllRead [] = tt
map-AllRead (m ∷ ms) = (tt, map-AllRead ms)

-- A call that fires no exception either leaves all as it was and waits, or takes a frame that more
-- bytes behind the queue do not change.
abbrev pub Stable : {S : Type 0} → Decode S → (S → Type 0) → Type 0
Stable {S} decode Ok =
    (s : S) (q more : List ℕ) (o : Outcome S)
    → Ok s
    → decode s q ≡ some o
    → o.fired ≡ []
    → ((o.result ≡ none) × (o.state ≡ s) × (o.buf ≡ q))
      ⊎ ((m : List ℕ) × Ok o.state
          × (o.result ≡ some m)
          × (decode s (q ++ more) ≡ some (record o { buf = o.buf ++ more })))

after-done :
    {S : Type 0} (es : List Event) (r : Run S) {s : S} {q : List ℕ} {fs : List Event}
    → after es r ≡ done s q fs
    → (gs : List Event) × (r ≡ done s q gs) × (fs ≡ es ++ gs)
after-done es (done s q gs) e = (gs, ground arith, ground arith)
after-done es (thrown gs) e = cc
after-done es out_of_fuel e = cc

AllRead-append_right : (es fs : List Event) → AllRead (es ++ fs) → AllRead fs
AllRead-append_right [] fs h = h
AllRead-append_right (e ∷ es) fs h = AllRead-append_right es fs h.1

suc-add : (f k : ℕ) → suc f + k ≡ suc (f + k)
suc-add f k = omega arith

pub done_parts :
    {S : Type 0} {s t : S} {q r : List ℕ} {es fs : List Event}
    → ◌≡◌ {A = Run S} (done s q es) (done t r fs)
    → (s ≡ t) × (q ≡ r) × (es ≡ fs)
done_parts e = (cc, cc, cc)

quiet_left :
    (fired : List ReadError) (gs : List Event)
    → AllRead (map fire_read_exception fired ++ gs)
    → fired ≡ []
quiet_left [] gs h = refl
quiet_left (e ∷ fired) gs h = absurd h.0

module _ {S : Type 0} (decode : Decode S) where
  loop_zero : (s : S) (q : List ℕ) → read_loop decode zero s q ≡ out_of_fuel
  unfolding read_loop
  loop_zero s q = refl

  loop_throw :
      (f : ℕ) (s : S) (q : List ℕ) → decode s q ≡ none → read_loop decode (suc f) s q ≡ thrown []
  unfolding read_loop
  loop_throw f s q d = rw (d, read_loop)

  pub loop_stop :
      (f : ℕ) (s : S) (q : List ℕ) (o : Outcome S)
      → decode s q ≡ some o
      → o.result ≡ none
      → read_loop decode (suc f) s q ≡ done o.state o.buf (errors o)
  unfolding read_loop
  loop_stop f s q o d stop = rw (d, read_loop, stop)

  pub loop_next :
      (f : ℕ) (s : S) (q : List ℕ) (o : Outcome S) (m : List ℕ)
      → decode s q ≡ some o
      → o.result ≡ some m
      → read_loop decode (suc f) s q
        ≡ after (errors o ++ (fire_read m ∷ [])) (read_loop decode f o.state o.buf)
  unfolding read_loop
  loop_next f s q o m d more = rw (d, read_loop, more)

  -- A run that ended does not change with more fuel.
  pub read_loop_more_fuel :
      (f k : ℕ) (s s₁ : S) (q q₁ : List ℕ) (es : List Event)
      → read_loop decode f s q ≡ done s₁ q₁ es
      → read_loop decode (f + k) s q ≡ done s₁ q₁ es
  read_loop_more_fuel zero k s s₁ q q₁ es e = cc (loop_zero s q)
  read_loop_more_fuel (suc f) k s s₁ q q₁ es e = elim (Option-cases (decode s q)) [
    | inl stop ↦ cc (loop_throw f s q stop)
    | inr (o, d) ↦ elim (Option-cases o.result) [
      | inl stop ↦ rw suc-add (cc (loop_stop f s q o d stop, loop_stop (f + k) s q o d stop))
      | inr (m, more) ↦
          let (gs, r, split) =
            after-done (errors o ++ (fire_read m ∷ [])) (read_loop decode f o.state o.buf)
              (sym (loop_next f s q o m d more) ∙ e) in
          rw
            (
              suc-add,
              loop_next (f + k) s q o m d more,
              read_loop_more_fuel f k o.state s₁ o.buf q₁ gs r,
              split,
            )
            refl
    ]
  ]

module _ {S : Type 0} (decode : Decode S) (Ok : S → Type 0) (stable : Stable decode Ok) where
  pub read_loop-append :
      (f g : ℕ) (s s₁ s₂ : S) (q more q₁ q₂ : List ℕ) (es fs : List Event)
      → Ok s
      → AllRead es
      → read_loop decode f s q ≡ done s₁ q₁ es
      → read_loop decode g s₁ (q₁ ++ more) ≡ done s₂ q₂ fs
      → read_loop decode (f + g) s (q ++ more) ≡ done s₂ q₂ (es ++ fs)
  read_loop-append zero g s s₁ s₂ q more q₁ q₂ es fs ok clean e₁ e₂ = cc (loop_zero decode s q)
  read_loop-append (suc f) g s s₁ s₂ q more q₁ q₂ es fs ok clean e₁ e₂ =
      elim (Option-cases (decode s q)) [
        | inl stop ↦ cc (loop_throw decode f s q stop)
        | inr (o, d) ↦ elim (Option-cases o.result) [
          | inl stop ↦ waits o d stop
          | inr (m, took) ↦
              let (gs, r, split) =
                after-done (errors o ++ (fire_read m ∷ [])) (read_loop decode f o.state o.buf)
                  (sym (loop_next decode f s q o m d took) ∙ e₁) in
              takes o m d took gs r split (λ ok'.
                read_loop-append f g o.state s₁ s₂ o.buf more q₁ q₂ gs fs ok'
                  (AllRead-append_right _ gs (subst AllRead split clean)) r e₂)
        ]
      ]
    where
      waits :
          (o : Outcome S)
          → decode s q ≡ some o
          → o.result ≡ none
          → read_loop decode (suc f + g) s (q ++ more) ≡ done s₂ q₂ (es ++ fs)
      waits o d stop =
          let (same, kept, all) = done_parts (sym (loop_stop decode f s q o d stop) ∙ e₁) in
          let quiet : o.fired ≡ [] =
            quiet_left o.fired [] (subst AllRead (sym all ∙ sym (append-nil (errors o))) clean) in
          elim (stable s q more o ok d quiet) [
            | inl (_, unmoved, unread) ↦
                rw (← all, quiet, add_comm (suc f) g)
                  (read_loop_more_fuel decode g (suc f) s s₂ (q ++ more) q₂ fs
                    (rw (← same, ← kept, unmoved, unread) at e₂))
            | inr (m, _, took, _) ↦ cc
          ]

      takes :
          (o : Outcome S) (m : List ℕ)
          → decode s q ≡ some o
          → o.result ≡ some m
          → (gs : List Event) → read_loop decode f o.state o.buf ≡ done s₁ q₁ gs
          → es ≡ (errors o ++ (fire_read m ∷ [])) ++ gs
          → (Ok o.state → read_loop decode (f + g) o.state (o.buf ++ more) ≡ done s₂ q₂ (gs ++ fs))
          → read_loop decode (suc f + g) s (q ++ more) ≡ done s₂ q₂ (es ++ fs)
      takes o m d took gs r split ih =
          elim (stable s q more o ok d (
            quiet_left o.fired (fire_read m ∷ gs)
              (subst AllRead (split ∙ append_assoc (errors o) (fire_read m ∷ []) gs) clean))) [
                | inl (stop, _, _) ↦ cc
                | inr (m', ok', took', later) ↦
                    rw
                      (
                        suc-add,
                        loop_next decode (f + g) s (q ++ more) (record o { buf = o.buf ++ more }) m
                            later took,
                        ih ok',
                        split,
                      )
                      (ap (done s₂ q₂) (sym (append_assoc (errors o ++ (fire_read m ∷ [])) gs fs)))
              ]
