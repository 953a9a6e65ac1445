-- ===== src/Acceptor/ConnectionManager/Lists.antt =====
-- Lists of distinct connections, from which one is taken.
use provider_agent_proxy.Common.{
  ℕ, arith, ◌≡◌, refl, sym, ap, subst, true, false, ◌||◌, List, [], ◌∷◌, ◌++◌, some, ◌==◌, ==_iff,
  inl, inr, Bool-cases, if◌then◌else◌, head, length, ◌≤◌, Differs, NoDup, NoDup-before, All,
  All-left, All-right,
}
use provider_agent_proxy.Acceptor.ConnectionManager.{
  member, erase, next_of, skip_over, last, or_last,
}

pub member-append : (c : ℕ) (xs ys : List ℕ) → member c (xs ++ ys) ≡ member c xs || member c ys
member-append c [] ys = refl
member-append c (x ∷ xs) ys = ground (arith, member-append c xs ys)

pub member-false→Differs : (c : ℕ) (xs : List ℕ) → member c xs ≡ false → Differs c xs
member-false→Differs c [] h = tt
member-false→Differs c (x ∷ xs) h = (ground arith, member-false→Differs c xs (ground arith))

pub Differs→member-false : (c : ℕ) (xs : List ℕ) → Differs c xs → member c xs ≡ false
Differs→member-false c [] h = refl
Differs→member-false c (x ∷ xs) (h, hs) = rw (h, Differs→member-false c xs hs) refl

pub erase-Differs : (c : ℕ) (xs : List ℕ) → Differs c xs → erase c xs ≡ xs
erase-Differs c [] h = refl
erase-Differs c (x ∷ xs) (h, hs) = rw (h, erase-Differs c xs hs) refl

-- A list without a connection, and what it inherits.
pub All-erase : (P : ℕ → Type 0) (c : ℕ) (xs : List ℕ) → All P xs → All P (erase c xs)
All-erase P c [] h = tt
All-erase P c (x ∷ xs) (h, hs) = elim (x == c) as (λ b. All P (if b then xs else x ∷ erase c xs)) [
  | true ↦ hs
  | false ↦ (h, All-erase P c xs hs)
]

pub NoDup-erase : (c : ℕ) (xs : List ℕ) → NoDup xs → NoDup (erase c xs)
NoDup-erase c [] h = tt
NoDup-erase c (x ∷ xs) (d, h) = elim (x == c) as (λ b. NoDup (if b then xs else x ∷ erase c xs)) [
  | true ↦ h
  | false ↦ (All-erase (λ z. (z == x) ≡ false) c xs d, NoDup-erase c xs h)
]

pub erased-Differs : (c : ℕ) (xs : List ℕ) → NoDup xs → Differs c (erase c xs)
erased-Differs c [] h = tt
erased-Differs c (x ∷ xs) (d, h) = elim (Bool-cases (x == c)) [
  | inl is ↦ rw is (subst (λ y. Differs y xs) ((==_iff x c).0 is) d)
  | inr is ↦ rw is (is, erased-Differs c xs h)
]

-- In two lists that share nothing.
pub erase-append :
    (c : ℕ) (xs ys : List ℕ) → NoDup (xs ++ ys) → erase c (xs ++ ys) ≡ erase c xs ++ erase c ys
erase-append c [] ys h = refl
erase-append c (x ∷ xs) ys (d, h) = elim (Bool-cases (x == c)) [
  | inl is ↦ rw is (
      ap (λ l. xs ++ l)
        (sym (
          erase-Differs c ys (
            subst (λ y. Differs y ys) ((==_iff x c).0 is)
              (All-right (λ z. (z == x) ≡ false) xs ys d)))))
  | inr is ↦ rw is (ap (◌∷◌ x) (erase-append c xs ys h))
]

pub NoDup-left : (xs ys : List ℕ) → NoDup (xs ++ ys) → NoDup xs
NoDup-left [] ys h = tt
NoDup-left (x ∷ xs) ys (d, h) = (All-left (λ z. (z == x) ≡ false) xs ys d, NoDup-left xs ys h)

pub NoDup-right : (xs ys : List ℕ) → NoDup (xs ++ ys) → NoDup ys
NoDup-right [] ys h = h
NoDup-right (x ∷ xs) ys (d, h) = NoDup-right xs ys h

-- A connection of the first list is none of the second.
pub member-left→Differs :
    (c : ℕ) (xs ys : List ℕ) → NoDup (xs ++ ys) → member c xs ≡ true → Differs c ys
member-left→Differs c [] ys h k = absurd (ground arith)
member-left→Differs c (x ∷ xs) ys (d, h) k = elim (Bool-cases (x == c)) [
  | inl is ↦
      subst (λ y. Differs y ys) ((==_iff x c).0 is) (All-right (λ z. (z == x) ≡ false) xs ys d)
  | inr is ↦ member-left→Differs c xs ys h (ground arith)
]

pub next_of-middle : (c : ℕ) (xs ys : List ℕ) → Differs c xs → next_of c (xs ++ (c ∷ ys)) ≡ head ys
next_of-middle c [] ys h = ground arith
next_of-middle c (x ∷ xs) ys (h, hs) = rw h (next_of-middle c xs ys hs)

-- An iterator to the second list, after a connection is taken.
pub skip_over-head :
    (c : ℕ) (xs ys : List ℕ)
    → NoDup (xs ++ ys)
    → skip_over c (xs ++ ys) (head ys) ≡ head (erase c ys)
skip_over-head c xs [] h = refl
skip_over-head c xs (y ∷ ys) h = elim (Bool-cases (y == c)) [
  | inl is ↦ rw is (
      subst (λ d. next_of c (xs ++ (d ∷ ys)) ≡ head ys) (sym ((==_iff y c).0 is))
        (next_of-middle c xs ys
          (subst (λ d. Differs d xs) ((==_iff y c).0 is) (NoDup-before xs ys y h))))
  | inr is ↦ rw is refl
]

pub last-append : (xs : List ℕ) (c : ℕ) → last (xs ++ (c ∷ [])) ≡ some c
last-append [] c = refl
last-append (x ∷ []) c = refl
last-append (x ∷ y ∷ xs) c = last-append (y ∷ xs) c

-- An iterator to the second list, after a connection is put at its end.
pub or_last-head :
    (xs ys : List ℕ) (c : ℕ) → or_last (head ys) (xs ++ (ys ++ (c ∷ []))) ≡ head (ys ++ (c ∷ []))
or_last-head xs [] c = last-append xs c
or_last-head xs (y ∷ ys) c = refl

pub erase-last : (c : ℕ) (xs : List ℕ) → Differs c xs → erase c (xs ++ (c ∷ [])) ≡ xs
erase-last c [] h = ground arith
erase-last c (x ∷ xs) (h, hs) = rw (h, erase-last c xs hs) refl

-- A connection of the second list is none of the first.
pub member-right→Differs :
    (c : ℕ) (xs ys : List ℕ) → NoDup (xs ++ ys) → member c ys ≡ true → Differs c xs
member-right→Differs c [] ys h k = tt
member-right→Differs c (x ∷ xs) ys (d, h) k = elim (Bool-cases (x == c)) [
  | inl is ↦ absurd (
      not_here
        (subst (λ y. Differs y ys) ((==_iff x c).0 is) (All-right (λ z. (z == x) ≡ false) xs ys d)))
  | inr is ↦ (is, member-right→Differs c xs ys h k)
]
  where
    not_here : ¬ (Differs c ys)
    not_here e = ground (arith, Differs→member-false c ys e)

pub length-erase : (c : ℕ) (xs : List ℕ) → length (erase c xs) ≤ length xs
length-erase c [] = omega arith
length-erase c (x ∷ xs) = ground (arith, length-erase c xs)
