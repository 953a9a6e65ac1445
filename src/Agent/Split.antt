-- ===== src/Agent/Split.antt =====
-- wangle/chijinxin/utility.h: StringSplit.
pub mod Pieces
pub mod Limit
use provider_agent_proxy.Common.{
  ℕ, zero, suc, ◌+◌, ◌%◌, ◌^◌, Bool, true, false, not, ◌&&◌, ◌||◌, ◌==◌, List, [], ◌∷◌, ◌++◌,
  Option, none, some, length, take, drop, if◌then◌else◌,
}

abbrev pub is_in : ℕ → List ℕ → Bool
is_in c [] = false
is_in c (d ∷ ds) = c == d || is_in c ds

abbrev pub further : Option ℕ → Option ℕ
further none = none
further (some k) = some (suc k)

-- `find_first_of` on the string from `start` on, with the position relative to `start`; `none`: npos.
unfoldable pub find_first_of : List ℕ → List ℕ → Option ℕ
find_first_of delims [] = none
find_first_of delims (c ∷ s) =
    let later = find_first_of delims s in if is_in c delims then some zero else further later

-- `maxSplits && numSplits + 1 == maxSplits`, of `unsigned int`s.
abbrev pub at_limit : ℕ → ℕ → Bool
at_limit max_splits num_splits = not (max_splits == 0) && (num_splits + 1) % 2 ^ 32 == max_splits

-- The loop, on the string from `start` on, with the strings that it appends to `ret`. Each round but
-- the last consumes a delimiter, so that the length of the string and one more is enough fuel.
unfoldable pub split_loop : ℕ → List ℕ → ℕ → ℕ → List ℕ → List (List ℕ)
split_loop zero delims max_splits num_splits s = []
split_loop (suc fuel) delims max_splits num_splits s = elim (find_first_of delims s) [
  | none ↦ s ∷ []
  | some zero ↦ [] ∷ split_loop fuel delims max_splits ((num_splits + 1) % 2 ^ 32) (drop 1 s)
  | some (suc k) ↦
      let rest =
        split_loop fuel delims max_splits ((num_splits + 1) % 2 ^ 32) (drop (suc (suc k)) s) in
      if at_limit max_splits num_splits then s ∷ [] else take (suc k) s ∷ rest
]

unfoldable pub string_split : List ℕ → List ℕ → ℕ → List (List ℕ) → List (List ℕ)
unfolding split_loop
string_split [] delims max_splits ret = ret
string_split (c ∷ s) delims max_splits ret =
    ret ++ split_loop (suc (length (c ∷ s))) delims max_splits 0 (c ∷ s)
