-- ===== src/Codec/Line/Find.antt =====
-- `findEndOfLine` on lines with and without a lone carriage return.
use provider_agent_proxy.Common.{
  ℕ, zero, suc, ◌+◌, ◌<◌, ◌≡◌, ◌≢◌, refl, ◌∙◌, true, false, List, [], ◌∷◌, ◌++◌, none, some, arith,
  All, length, ◌==◌,
}
use provider_agent_proxy.Codec.Line.{TerminatorType, lf, cr, takes_lf, takes_cr_lf, find_loop}

-- A byte that ends no line and begins no terminator.
abbrev pub Plain : ℕ → Type 0
Plain b = (b ≢ lf) × (b ≢ cr)

ne→==false : (a b : ℕ) → a ≢ b → (a == b) ≡ false
ne→==false a b h = ground arith

find_loop_step :
    (t : TerminatorType) (b : ℕ) (c : List ℕ) (rounds i : ℕ)
    → Plain b
    → find_loop t (suc rounds) i (b ∷ c) ≡ find_loop t rounds (suc i) c
unfolding find_loop
find_loop_step t b [] rounds i h = rw (ne→==false b lf h.0)
find_loop_step t b (b' ∷ c) rounds i h = ground (arith, ne→==false b lf h.0, ne→==false b cr h.1)

-- The loop passes over plain bytes.
pub find_loop-Plain :
    (t : TerminatorType) (line rest : List ℕ) (rounds i : ℕ)
    → All Plain line
    → find_loop t (length line + rounds) i (line ++ rest)
      ≡ find_loop t rounds (i + length line) rest
find_loop-Plain t [] rest rounds i h =
    let r : 0 + rounds ≡ rounds = omega arith in let j : i + 0 ≡ i = omega arith in rw (r, j)
find_loop-Plain t (b ∷ line) rest rounds i h =
    let r : suc (length line) + rounds ≡ suc (length line + rounds) = omega arith in
    let j : i + suc (length line) ≡ suc i + length line = omega arith in
    rw (r, j)
      (find_loop_step t b (line ++ rest) (length line + rounds) i h.0
        ∙ find_loop-Plain t line rest rounds (suc i) h.1)

-- A line feed is found where the settings accept it alone.
pub find_loop-lf :
    (t : TerminatorType) (c : List ℕ) (rounds i : ℕ)
    → takes_lf t ≡ true
    → find_loop t (suc rounds) i (lf ∷ c) ≡ some (some i)
unfolding find_loop
find_loop-lf t [] rounds i h = rw h
find_loop-lf t (b ∷ c) rounds i h = rw h

-- "\r\n" is found where the settings accept it.
pub find_loop-carriage_newline :
    (t : TerminatorType) (c : List ℕ) (rounds i : ℕ)
    → takes_cr_lf t ≡ true
    → find_loop t (suc rounds) i (cr ∷ lf ∷ c) ≡ some (some i)
unfolding find_loop
find_loop-carriage_newline t c rounds i h = rw h

-- A carriage return that no line feed follows swallows the byte behind it: the counter advances by
-- one, and the cursor by two.
pub find_loop-lone_cr :
    (t : TerminatorType) (b : ℕ) (c : List ℕ) (rounds i : ℕ)
    → takes_cr_lf t ≡ true
    → b ≢ lf
    → find_loop t (suc rounds) i (cr ∷ b ∷ c) ≡ find_loop t rounds (suc i) c
unfolding find_loop
find_loop-lone_cr t b c rounds i h n = rw (h, ne→==false b lf n)

pub find_loop-stop : (t : TerminatorType) (c : List ℕ) (i : ℕ) → find_loop t zero i c ≡ some none
unfolding find_loop
find_loop-stop t c i = refl

pub find_loop-throws : (t : TerminatorType) (rounds i : ℕ) → find_loop t (suc rounds) i [] ≡ none
unfolding find_loop
find_loop-throws t rounds i = refl

-- What the loop finds lies within its rounds.
pub find_loop-lt :
    (t : TerminatorType) (rounds i : ℕ) (c : List ℕ) (e : ℕ)
    → find_loop t rounds i c ≡ some (some e)
    → e < i + rounds
unfolding find_loop
find_loop-lt t zero i c e h = cc
find_loop-lt t (suc rounds) i [] e h = cc
find_loop-lt t (suc rounds) i (b ∷ []) e h = ground (arith, find_loop-lt t rounds (suc i) [] e)
find_loop-lt t (suc rounds) i (b ∷ b' ∷ c) e h =
    ground (arith, find_loop-lt t rounds (suc i) c e, find_loop-lt t rounds (suc i) (b' ∷ c) e)
