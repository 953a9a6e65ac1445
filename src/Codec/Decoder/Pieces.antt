-- ===== src/Codec/Decoder/Pieces.antt =====
-- `ByteToMessageDecoder::read` called on a stream in pieces, and called once on the whole of it.
use provider_agent_proxy.Common.{
  ℕ, suc, ◌+◌, ◌≡◌, refl, sym, ap, ◌∙◌, subst, map, List, ◌++◌, arith, length,
}
use provider_agent_proxy.Codec.Decoder.{Decode, Event, fire_read, Run, done, after, read_loop, read}
use provider_agent_proxy.Codec.Decoder.Termination.{Progress, ends, read-Ends}
use provider_agent_proxy.Codec.Decoder.Fragments.{
  Stable, map-AllRead, read_loop_more_fuel, read_loop-append, done_parts,
}

module _ {S : Type 0} (decode : Decode S) where
  -- Two runs that ended are the same, whatever the fuel of each.
  read_loop-agree :
      (f g : ℕ) (s s₁ s₂ : S) (q q₁ q₂ : List ℕ) (es fs : List Event)
      → read_loop decode f s q ≡ done s₁ q₁ es
      → read_loop decode g s q ≡ done s₂ q₂ fs
      → ◌≡◌ {A = Run S} (done s₁ q₁ es) (done s₂ q₂ fs)
  read_loop-agree f g s s₁ s₂ q q₁ q₂ es fs e₁ e₂ =
      let swap : g + f ≡ f + g = omega arith in
      sym (read_loop_more_fuel decode f g s s₁ q q₁ es e₁)
      ∙ ap (λ (n : ℕ). read_loop decode n s q) (sym swap)
      ∙ read_loop_more_fuel decode g f s s₂ q q₂ fs e₂

  read-loop : (s : S) (q : List ℕ) → read decode s q ≡ read_loop decode (suc (length q)) s q
  unfolding read
  read-loop s q = refl

module _ {S : Type 0} (decode : Decode S) (Ok : S → Type 0) (step : Progress decode Ok)
    (stable : Stable decode Ok) where
  -- Where the first call fired no exception, the two calls together act as one on all the bytes.
  pub read-append-after :
      (s s₁ : S) (q more q₁ : List ℕ) (ms : List (List ℕ))
      → Ok s
      → read decode s q ≡ done s₁ q₁ (map fire_read ms)
      → read decode s (q ++ more) ≡ after (map fire_read ms) (read decode s₁ (q₁ ++ more))
  read-append-after s s₁ q more q₁ ms ok e = elim (read-Ends decode Ok step s q ok) [
    | ends s' q' es e' ok' ↦
        let same : s' ≡ s₁ = (done_parts (sym e' ∙ e)).0 in
        let ok₁ : Ok s₁ = subst Ok same ok' in
        elim (read-Ends decode Ok step s₁ (q₁ ++ more) ok₁) [
          | ends s₂ q₂ fs e₂ ok₂ ↦ elim (read-Ends decode Ok step s (q ++ more) ok) [
            | ends s₃ q₃ gs e₃ ok₃ ↦
                let f = suc (length q) in
                let g = suc (length (q₁ ++ more)) in
                let pieces =
                  read_loop-append decode Ok stable f g s s₁ s₂ q more q₁ q₂ (map fire_read ms) fs
                    ok (map-AllRead ms) (sym (read-loop decode s q) ∙ e)
                    (sym (read-loop decode s₁ (q₁ ++ more)) ∙ e₂) in
                e₃
                ∙ read_loop-agree decode (suc (length (q ++ more))) (f + g) s s₃ s₂ (q ++ more) q₃
                    q₂ gs (map fire_read ms ++ fs) (sym (read-loop decode s (q ++ more)) ∙ e₃)
                    pieces
                ∙ ap (after (map fire_read ms)) (sym e₂)
          ]
        ]
  ]
