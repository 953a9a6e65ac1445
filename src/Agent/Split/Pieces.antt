-- ===== src/Agent/Split/Pieces.antt =====
-- What the pieces of StringSplit are.
use provider_agent_proxy.Common.{
  ℕ, zero, suc, ◌+◌, ◌%◌, ◌^◌, ◌<◌, ◌≡◌, ◌≢◌, ◌⊎◌, subst, refl, sym, ap, ◌∙◌, true, false, List, [],
  ◌∷◌, ◌++◌, Option, none, some, arith, length, take, drop, All, Option-cases, Bool-cases, inl, inr,
  if-true, if-false, length-drop,
}
use provider_agent_proxy.Agent.Split.{
  is_in, find_first_of, further, at_limit, split_loop, string_split,
}

abbrev pub Free : List ℕ → List ℕ → Type 0
Free delims piece = All (λ c. is_in c delims ≡ false) piece

-- How a string is cut, with the number `i` of the pieces before it: into itself, if it has no
-- delimiter; into itself as well, if a piece that is not empty ends at its first delimiter and the
-- limit `m` is i + 1; and else at its first delimiter, with the rest cut after one piece more.
pub data Cuts (delims : List ℕ) (m : ℕ) : ℕ → List (List ℕ) → List ℕ → Type 0 where
  last : (i : ℕ) (piece : List ℕ) → Free delims piece → Cuts delims m i (piece ∷ []) piece
  limit :
      (i : ℕ) (piece : List ℕ) (d : ℕ) (rest : List ℕ)
      → Free delims piece
      → piece ≢ []
      → is_in d delims ≡ true
      → m ≡ i + 1
      → Cuts delims m i ((piece ++ (d ∷ rest)) ∷ []) (piece ++ (d ∷ rest))
  cut :
      (i : ℕ) (piece : List ℕ) (d : ℕ) (pieces : List (List ℕ)) (rest : List ℕ)
      → Free delims piece
      → is_in d delims ≡ true
      → (piece ≡ []) ⊎ (m ≢ i + 1)
      → Cuts delims m (i + 1) pieces rest
      → Cuts delims m i (piece ∷ pieces) (piece ++ (d ∷ rest))

-- The delimiter that was found, and what is in front of it.
pub data Found (delims s : List ℕ) (k : ℕ) : Type 0 where
  found :
      (d : ℕ)
      → Free delims (take k s)
      → is_in d delims ≡ true
      → take k s ++ (d ∷ drop (suc k) s) ≡ s
      → k < length s
      → Found delims s k

Found-cons :
    (delims s : List ℕ) (c k : ℕ)
    → is_in c delims ≡ false
    → Found delims s k
    → Found delims (c ∷ s) (suc k)
Found-cons delims s c k h (found d free hit whole lt) =
    found d (h, free) hit (ap (◌∷◌ c) whole) (omega arith)

pub find_hit :
    (delims s : List ℕ) (c : ℕ) → is_in c delims ≡ true → find_first_of delims (c ∷ s) ≡ some zero
unfolding find_first_of
find_hit delims s c h = rw h

find_miss :
    (delims s : List ℕ) (c : ℕ)
    → is_in c delims ≡ false
    → find_first_of delims (c ∷ s) ≡ further (find_first_of delims s)
unfolding find_first_of
find_miss delims s c h = rw h

find_nil : (delims : List ℕ) → find_first_of delims [] ≡ none
unfolding find_first_of
find_nil delims = refl

further-none : (o : Option ℕ) → further o ≡ none → o ≡ none
further-none none e = refl
further-none (some k) e = cc

further-some : (o : Option ℕ) (k : ℕ) → further o ≡ some k → (j : ℕ) × (o ≡ some j) × (k ≡ suc j)
further-some none k e = cc
further-some (some j) k e = (j, refl, cc)

pub find_none : (delims s : List ℕ) → find_first_of delims s ≡ none → Free delims s
find_none delims [] e = tt
find_none delims (c ∷ s) e = elim (Bool-cases (is_in c delims)) [
  | inl hit ↦ cc (find_hit delims s c hit)
  | inr miss ↦ (miss, find_none delims s (further-none _ (sym (find_miss delims s c miss) ∙ e)))
]

pub find-Found : (delims s : List ℕ) (k : ℕ) → find_first_of delims s ≡ some k → Found delims s k
find-Found delims [] k e = cc (find_nil delims)
find-Found delims (c ∷ s) k e = elim (Bool-cases (is_in c delims)) [
  | inl hit ↦
      let first : k ≡ 0 = cc (find_hit delims s c hit) in
      rw first (found c tt hit refl (omega arith))
  | inr miss ↦
      let (j, later, next) = further-some _ k (sym (find_miss delims s c miss) ∙ e) in
      rw next (Found-cons delims s c j miss (find-Found delims s j later))
]

-- A round of the loop, by what it finds.
pub loop_last :
    (f : ℕ) (delims : List ℕ) (m n : ℕ) (s : List ℕ)
    → find_first_of delims s ≡ none
    → split_loop (suc f) delims m n s ≡ s ∷ []
unfolding split_loop
loop_last f delims m n s e = rw (e, split_loop)

pub loop_first :
    (f : ℕ) (delims : List ℕ) (m n : ℕ) (s : List ℕ)
    → find_first_of delims s ≡ some zero
    → split_loop (suc f) delims m n s ≡ [] ∷ split_loop f delims m ((n + 1) % 2 ^ 32) (drop 1 s)
unfolding split_loop
loop_first f delims m n s e = rw (e, split_loop)

pub loop_limit :
    (f : ℕ) (delims : List ℕ) (m n k : ℕ) (s : List ℕ)
    → find_first_of delims s ≡ some (suc k)
    → at_limit m n ≡ true
    → split_loop (suc f) delims m n s ≡ s ∷ []
unfolding split_loop
loop_limit f delims m n k s e h = rw (e, split_loop) (if-true (at_limit m n) _ _ h)

pub loop_cut :
    (f : ℕ) (delims : List ℕ) (m n k : ℕ) (s : List ℕ)
    → find_first_of delims s ≡ some (suc k)
    → at_limit m n ≡ false
    → split_loop (suc f) delims m n s
      ≡ take (suc k) s ∷ split_loop f delims m ((n + 1) % 2 ^ 32) (drop (suc (suc k)) s)
unfolding split_loop
loop_cut f delims m n k s e h = rw (e, split_loop) (if-false (at_limit m n) _ _ h)

-- What is known of a round when it is done.
pub data Round (f : ℕ) (delims : List ℕ) (m n : ℕ) (s : List ℕ) (r : List (List ℕ)) : Type 0 where
  no_delimiter : Free delims s → r ≡ s ∷ [] → Round f delims m n s r
  limited :
      (k : ℕ)
      → find_first_of delims s ≡ some (suc k)
      → at_limit m n ≡ true
      → r ≡ s ∷ []
      → Round f delims m n s r
  piece :
      (k : ℕ)
      → Found delims s k
      → (k ≡ 0) ⊎ (at_limit m n ≡ false)
      → r ≡ take k s ∷ split_loop f delims m ((n + 1) % 2 ^ 32) (drop (suc k) s)
      → Round f delims m n s r

pub loop-Round :
    (f : ℕ) (delims : List ℕ) (m n : ℕ) (s : List ℕ)
    → Round f delims m n s (split_loop (suc f) delims m n s)
loop-Round f delims m n s = elim (Option-cases (find_first_of delims s)) [
  | inl e ↦ no_delimiter (find_none delims s e) (loop_last f delims m n s e)
  | inr (zero, e) ↦ piece 0 (find-Found delims s 0 e) (inl refl) (loop_first f delims m n s e)
  | inr (suc k, e) ↦ elim (Bool-cases (at_limit m n)) [
    | inl h ↦ limited k e h (loop_limit f delims m n k s e h)
    | inr h ↦ piece (suc k) (find-Found delims s (suc k) e) (inr h) (loop_cut f delims m n k s e h)
  ]
]

limit_reached : (m n : ℕ) → n + 1 < 2 ^ 32 → at_limit m n ≡ true → m ≡ n + 1
limit_reached m n h e = ground arith

limit_not_reached : (m n : ℕ) → n + 1 < 2 ^ 32 → at_limit m n ≡ false → m ≢ n + 1
limit_not_reached m n h e is = ground arith

take-not-nil : (k : ℕ) (s : List ℕ) → suc k < length s → take (suc k) s ≢ []
take-not-nil k [] h = absurd (omega arith)
take-not-nil k (c ∷ s) h = λ e. cc

loop-Cuts :
    (f : ℕ) (delims : List ℕ) (m n : ℕ) (s : List ℕ)
    → length s < f
    → n + length s + 1 < 2 ^ 32
    → Cuts delims m n (split_loop f delims m n s) s
loop-Cuts zero delims m n s h small = absurd (omega arith)
loop-Cuts (suc f) delims m n s h small = elim (loop-Round f delims m n s) [
  | no_delimiter free e ↦ rw e (last n s free)
  | limited k here at e ↦ elim (find-Found delims s (suc k) here) [
    | found d free hit whole lt ↦ rw e (
        subst (λ t. Cuts delims m n (t ∷ []) t) whole
          (limit n (take (suc k) s) d (drop (suc (suc k)) s) free (take-not-nil k s lt) hit
            (limit_reached m n (omega arith) at)))
  ]
  | piece k (found d free hit whole lt) why e ↦
      let same : (n + 1) % 2 ^ 32 ≡ n + 1 = omega arith in
      let rest =
        loop-Cuts f delims m (n + 1) (drop (suc k) s) (omega (arith, length-drop (suc k) s))
          (omega (arith, length-drop (suc k) s)) in
      rw (e, same)
        (subst (Cuts delims m n (take k s ∷ split_loop f delims m (n + 1) (drop (suc k) s))) whole
          (cut n (take k s) d _ (drop (suc k) s) free hit (piece_cut k why) rest))
]
  where
    piece_cut : (k : ℕ) → (k ≡ 0) ⊎ (at_limit m n ≡ false) → (take k s ≡ []) ⊎ (m ≢ n + 1)
    piece_cut k (inl z) = inl (rw z refl)
    piece_cut k (inr below) = inr (limit_not_reached m n (omega arith) below)

-- A string that is not empty, of fewer than 2 ^ 32 - 1 bytes, is cut at its delimiters, into the
-- pieces that are appended to `ret`: a piece between delimiters has none of them, and each delimiter
-- ends a piece, until there is none or until all pieces but one of the limit are there and the next
-- piece is not empty, where all that is left is the last piece.
pub split-Cuts :
    (c : ℕ) (s delims : List ℕ) (max_splits : ℕ) (ret : List (List ℕ))
    → length (c ∷ s) + 1 < 2 ^ 32
    → (pieces : List (List ℕ)) × (string_split (c ∷ s) delims max_splits ret ≡ ret ++ pieces)
      × Cuts delims max_splits 0 pieces (c ∷ s)
unfolding string_split
split-Cuts c s delims m ret small = (
  split_loop (suc (length (c ∷ s))) delims m 0 (c ∷ s),
  refl,
  loop-Cuts (suc (length (c ∷ s))) delims m 0 (c ∷ s) (omega arith) (omega arith),
)

no_limit : (n : ℕ) → at_limit 0 n ≡ false
no_limit n = refl

loop-Free :
    (f : ℕ) (delims : List ℕ) (n : ℕ) (s : List ℕ) → All (Free delims) (split_loop f delims 0 n s)
loop-Free zero delims n s = unfold split_loop in tt
loop-Free (suc f) delims n s = elim (loop-Round f delims 0 n s) [
  | no_delimiter free e ↦ rw e (free, tt)
  | limited k here at e ↦ cc (no_limit n)
  | piece k (found d free hit whole lt) _ e ↦
      rw e (free, loop-Free f delims ((n + 1) % 2 ^ 32) (drop (suc k) s))
]

-- Without a limit every piece is free of delimiters, so that the string is cut at each of them.
pub split-Free : (s delims : List ℕ) → All (Free delims) (string_split s delims 0 [])
unfolding string_split
split-Free [] delims = tt
split-Free (c ∷ s) delims = loop-Free (suc (length (c ∷ s))) delims 0 (c ∷ s)
