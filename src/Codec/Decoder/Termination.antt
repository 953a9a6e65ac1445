-- ===== src/Codec/Decoder/Termination.antt =====
-- The loop of `ByteToMessageDecoder::read` ends, for a decoder that takes bytes when it succeeds.
use provider_agent_proxy.Common.{
  ℕ, zero, suc, ◌<◌, ◌≡◌, ◌⊎◌, inl, inr, List, [], ◌∷◌, ◌++◌, none, some, arith, length,
  Option-cases,
}
use provider_agent_proxy.Codec.Decoder.{
  Outcome, Decode, Event, fire_read, Run, done, after, errors, read_loop, read,
}

-- A round never throws, keeps `Ok`, and takes a byte at least if it returns true.
abbrev pub Progress : {S : Type 0} → Decode S → (S → Type 0) → Type 0
Progress {S} decode Ok =
    (s : S) (q : List ℕ)
    → Ok s
    → (o : Outcome S) × (decode s q ≡ some o)
      × Ok o.state
      × ((o.result ≡ none) ⊎ (length o.buf < length q))

-- The run came to its end, in an `Ok` state.
pub data Ends {S : Type 0} (Ok : S → Type 0) (r : Run S) : Type 0 where
  ends : (s : S) (q : List ℕ) (es : List Event) → r ≡ done s q es → Ok s → Ends Ok r

module _ {S : Type 0} (decode : Decode S) (Ok : S → Type 0) (step : Progress decode Ok) where
  after-Ends : (es : List Event) (r : Run S) → Ends Ok r → Ends Ok (after es r)
  after-Ends es r (ends s q fs e ok) = ends s q (es ++ fs) (rw e) ok

  pub read_loop-Ends :
      (fuel : ℕ) (s : S) (q : List ℕ) → length q < fuel → Ok s → Ends Ok (read_loop decode fuel s q)
  unfolding read_loop
  read_loop-Ends zero s q h ok = absurd (omega arith)
  read_loop-Ends (suc fuel) s q h ok =
      let (o, e, ok', less) = step s q ok in
      elim (Option-cases o.result) [
        | inl stop ↦ ends o.state o.buf (errors o) (rw (e, read_loop, stop)) ok'
        | inr (m, more) ↦
            let shorter : length o.buf < length q = ground arith in
            rw (e, read_loop, more)
              (after-Ends (errors o ++ (fire_read m ∷ [])) _
                (read_loop-Ends fuel o.state o.buf (omega arith) ok'))
      ]

  pub read-Ends : (s : S) (q : List ℕ) → Ok s → Ends Ok (read decode s q)
  unfolding read
  read-Ends s q ok = read_loop-Ends (suc (length q)) s q (omega arith) ok
