-- ===== src/Agent/Split/Limit.antt =====
-- The limit on the number of pieces of StringSplit.
use provider_agent_proxy.Common.{
  ℕ, zero, suc, ◌+◌, ◌%◌, ◌^◌, ◌≤◌, ◌<◌, ◌≡◌, ◌≢◌, refl, sym, ap, ◌∙◌, true, false, List, [], ◌∷◌,
  arith, length, take, ◌++◌, Option-cases, some, drop, All, inl, inr, length-drop,
}
use provider_agent_proxy.Agent.Split.{is_in, find_first_of, at_limit, split_loop, string_split}
use provider_agent_proxy.Agent.Split.Pieces.{
  found, no_delimiter, limited, piece, loop-Round, loop_first, loop_last, loop_cut, find_hit,
  find-Found,
}

below_limit : (m n : ℕ) → n < m → m < 2 ^ 32 → at_limit m n ≡ false → n + 1 < m
below_limit m n h w e = ground arith

loop-length :
    (f : ℕ) (delims : List ℕ) (m n : ℕ) (s : List ℕ)
    → n < m
    → m < 2 ^ 32
    → All (λ p. p ≢ []) (split_loop f delims m n s)
    → n + length (split_loop f delims m n s) ≤ m
loop-length zero delims m n s h w some_piece = unfold split_loop in omega arith
loop-length (suc f) delims m n s h w some_piece = elim (loop-Round f delims m n s) [
  | no_delimiter free e ↦ omega (arith, ap length e)
  | limited k here at e ↦ omega (arith, ap length e)
  | piece zero _ _ e ↦ absurd ((rw e at some_piece).0 refl)
  | piece (suc k) _ (inl z) e ↦ cc
  | piece (suc k) _ (inr more) e ↦
      let next = below_limit m n h w more in
      let same : (n + 1) % 2 ^ 32 ≡ n + 1 = omega arith in
      let tail = split_loop f delims m (n + 1) (drop (suc (suc k)) s) in
      let whole : split_loop (suc f) delims m n s ≡ take (suc k) s ∷ tail = rw (← same) e in
      let rest =
        loop-length f delims m (n + 1) (drop (suc (suc k)) s) next w (rw whole at some_piece).1 in
      omega (arith, ap length whole)
]

-- With a limit above 0 and below 2 ^ 32, a string whose pieces are all non-empty gives at most so
-- many pieces.
pub split-length :
    (s delims : List ℕ) (max_splits : ℕ)
    → 0 < max_splits
    → max_splits < 2 ^ 32
    → All (λ p. p ≢ []) (string_split s delims max_splits [])
    → length (string_split s delims max_splits []) ≤ max_splits
unfolding string_split
split-length [] delims m pos w h = omega arith
split-length (c ∷ s) delims m pos w h =
    omega (arith, loop-length (suc (length (c ∷ s))) delims m 0 (c ∷ s) pos w h)

past_limit : (n : ℕ) → 0 < n → n + 1 < 2 ^ 32 → at_limit 1 n ≡ false
past_limit n h w = ground arith

-- Past the limit the loop goes on as if there were none.
loop-past_limit :
    (f : ℕ) (delims : List ℕ) (n : ℕ) (s : List ℕ)
    → 0 < n
    → n + length s + 1 < 2 ^ 32
    → length s < f
    → split_loop f delims 1 n s ≡ split_loop f delims 0 n s
loop-past_limit zero delims n s h w enough = absurd (omega arith)
loop-past_limit (suc f) delims n s h w enough =
    let same : (n + 1) % 2 ^ 32 ≡ n + 1 = omega arith in
    elim (Option-cases (find_first_of delims s)) [
      | inl e ↦ loop_last f delims 1 n s e ∙ sym (loop_last f delims 0 n s e)
      | inr (k, e) ↦ elim (find-Found delims s k e) [
        | found d free hit whole lt ↦
            let next =
              loop-past_limit f delims (n + 1) (drop (suc k) s) (omega arith)
                (omega (arith, length-drop (suc k) s)) (omega (arith, length-drop (suc k) s)) in
            let tail : split_loop f delims 1 ((n + 1) % 2 ^ 32) (drop (suc k) s)
                ≡ split_loop f delims 0 ((n + 1) % 2 ^ 32) (drop (suc k) s) =
              rw same next in
            piece_past_limit f delims n k s h w e tail
      ]
    ]
  where
    piece_past_limit :
        (f : ℕ) (delims : List ℕ) (n k : ℕ) (s : List ℕ)
        → 0 < n
        → n + length s + 1 < 2 ^ 32
        → find_first_of delims s ≡ some k
        → split_loop f delims 1 ((n + 1) % 2 ^ 32) (drop (suc k) s)
          ≡ split_loop f delims 0 ((n + 1) % 2 ^ 32) (drop (suc k) s)
        → split_loop (suc f) delims 1 n s ≡ split_loop (suc f) delims 0 n s
    piece_past_limit f delims n zero s h w e tail =
        loop_first f delims 1 n s e ∙ ap (◌∷◌ []) tail ∙ sym (loop_first f delims 0 n s e)
    piece_past_limit f delims n (suc k) s h w e tail =
        loop_cut f delims 1 n k s e (past_limit n h (omega arith))
        ∙ ap (◌∷◌ (take (suc k) s)) tail
        ∙ sym (loop_cut f delims 0 n k s e refl)

-- For a string that begins with a delimiter the limit 1 is none: the string is split as if there
-- were no limit (for fewer than 2 ^ 32 - 2 bytes, so that `numSplits` does not wrap around).
pub leading_delimiter_lifts_limit :
    (d : ℕ) (s delims : List ℕ) (ret : List (List ℕ))
    → is_in d delims ≡ true
    → length s + 2 < 2 ^ 32
    → string_split (d ∷ s) delims 1 ret ≡ string_split (d ∷ s) delims 0 ret
unfolding string_split
leading_delimiter_lifts_limit d s delims ret hit small =
    let e = find_hit delims s d hit in
    let f = length (d ∷ s) in
    ap (◌++◌ ret) (
      loop_first f delims 1 0 (d ∷ s) e
      ∙ ap (◌∷◌ []) (loop-past_limit f delims 1 s (omega arith) (omega arith) (omega arith))
      ∙ sym (loop_first f delims 0 0 (d ∷ s) e))
