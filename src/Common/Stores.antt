-- ===== src/Common/Stores.antt =====
-- Stores, which map numbers to values, and lists of distinct numbers.
use Prim.Native.Nat.{ℕ, zero, suc}
use mathlib.Core.Path.{◌≡◌, refl, sym, ap, subst, ◌∙◌}
use mathlib.Core.Logic.{◌⊎◌, inl, inr}
use mathlib.Core.Bool.{Bool, true, false}
use mathlib.Core.List.{List, [], ◌∷◌, ◌++◌, reverse, reverse-cons, append-nil}
use mathlib.Core.Option
use mathlib.Core.Option.{Option, none, some}
use provider_agent_proxy.Common.Tests.{◌==◌, ==_iff, Bool-cases, if◌then◌else◌}
use provider_agent_proxy.Common.Lists.{All, length, length-append, get_elem?, take, drop}
use native.Mathlib.Omega.{arith}

-- The store with another value at a number.
abbrev pub update {ℓ} : {A : Type ℓ} → (ℕ → A) → ℕ → A → ℕ → A
update f i a j = if j == i then a else f j

pub update-same {ℓ} : {A : Type ℓ} (f : ℕ → A) (i : ℕ) (a : A) → update f i a i ≡ a
update-same f i a = ground arith

pub update-other {ℓ} :
    {A : Type ℓ} (f : ℕ → A) (i j : ℕ) (a : A) → (j == i) ≡ false → update f i a j ≡ f j
update-other f i j a h = rw h

-- What a change of one value does not concern.
pub see-update {ℓ κ} :
    {A : Type ℓ} {B : Type κ} (see : A → B) (f : ℕ → A) (i : ℕ) (a : A) (j : ℕ)
    → see a ≡ see (f i)
    → see (update f i a j) ≡ see (f j)
see-update see f i a j h = elim (Bool-cases (j == i)) [
  | inl is ↦ rw is (h ∙ ap (λ k. see (f k)) (sym ((==_iff j i).0 is)))
  | inr is ↦ ap see (update-other f i j a is)
]

-- The elements that pass a test.
abbrev pub select {ℓ} : {A : Type ℓ} → (A → Bool) → List A → List A
select p [] = []
select p (x ∷ xs) = if p x then x ∷ select p xs else select p xs

-- The list less its first element equal to a number, if there is one.
abbrev pub erase_first : ℕ → List ℕ → Option (List ℕ)
erase_first c [] = none
erase_first c (x ∷ xs) = if x == c then some xs else Option.map (λ l. x ∷ l) (erase_first c xs)

abbrev pub Differs : ℕ → List ℕ → Type 0
Differs c xs = All (λ x. (x == c) ≡ false) xs

abbrev pub NoDup : List ℕ → Type 0
NoDup [] = Unit {0}
NoDup (x ∷ xs) = Differs x xs × NoDup xs

module _ {ℓ κ} {A : Type ℓ} (P : A → Type κ) where
  pub All-append : (xs ys : List A) → All P xs → All P ys → All P (xs ++ ys)
  All-append [] ys h k = k
  All-append (x ∷ xs) ys (h, hs) k = (h, All-append xs ys hs k)

  pub All-left : (xs ys : List A) → All P (xs ++ ys) → All P xs
  All-left [] ys h = tt
  All-left (x ∷ xs) ys (h, hs) = (h, All-left xs ys hs)

  pub All-right : (xs ys : List A) → All P (xs ++ ys) → All P ys
  All-right [] ys h = h
  All-right (x ∷ xs) ys (h, hs) = All-right xs ys hs

  pub All-select : (p : A → Bool) (xs : List A) → All P xs → All P (select p xs)
  All-select p [] h = tt
  All-select p (x ∷ xs) (h, hs) =
      elim (p x) as (λ b. All P (if b then x ∷ select p xs else select p xs)) [
        | true ↦ (h, All-select p xs hs)
        | false ↦ All-select p xs hs
      ]

pub All-map {ℓ κ} :
    {A : Type ℓ} (P Q : A → Type κ) (xs : List A) → ((x : A) → P x → Q x) → All P xs → All Q xs
All-map P Q [] f h = tt
All-map P Q (x ∷ xs) f (h, hs) = (f x h, All-map P Q xs f hs)

module _ {ℓ} {A : Type ℓ} where
  pub List-cases : (l : List A) → (l ≡ []) ⊎ ((x : A) × (xs : List A) × (l ≡ x ∷ xs))
  List-cases [] = inl refl
  List-cases (x ∷ xs) = inr (x, xs, refl)

  pub select-append :
      (p : A → Bool) (xs ys : List A) → select p (xs ++ ys) ≡ select p xs ++ select p ys
  select-append p [] ys = refl
  select-append p (x ∷ xs) ys =
      elim (p x)
        as (λ b.
          (if b then x ∷ select p (xs ++ ys) else select p (xs ++ ys))
          ≡ (if b then x ∷ select p xs else select p xs) ++ select p ys) [
            | true ↦ ap (◌∷◌ x) (select-append p xs ys)
            | false ↦ select-append p xs ys
          ]

  pub select-reverse : (p : A → Bool) (xs : List A) → reverse (select p xs) ≡ select p (reverse xs)
  select-reverse p [] = refl
  select-reverse p (x ∷ xs) =
      last (p x)
      ∙ ap (λ l. l ++ select p (x ∷ [])) (select-reverse p xs)
      ∙ sym (select-append p (reverse xs) (x ∷ []))
      ∙ ap (select p) (sym (reverse-cons x xs))
    where
      last :
          (b : Bool)
          → reverse (if b then x ∷ select p xs else select p xs)
            ≡ reverse (select p xs) ++ (if b then x ∷ [] else [])
      last true = reverse-cons x (select p xs)
      last false = sym (append-nil (reverse (select p xs)))

  pub length-reverse : (xs : List A) → length (reverse xs) ≡ length xs
  length-reverse [] = refl
  length-reverse (x ∷ xs) =
      ap length (reverse-cons x xs)
      ∙ length-append (reverse xs) (x ∷ [])
      ∙ omega (arith, length-reverse xs)

  -- Tests that agree on the elements select the same.
  pub select-congr :
      (p q : A → Bool) (xs : List A) → All (λ x. p x ≡ q x) xs → select p xs ≡ select q xs
  select-congr p q [] h = refl
  select-congr p q (x ∷ xs) (h, hs) = rw (h, select-congr p q xs hs)

  -- A list with an element at a position is what stands before it, the element, and the rest.
  pub split_at :
      (i : ℕ) (xs : List A) (x : A)
      → get_elem? xs i ≡ some x
      → xs ≡ take i xs ++ (x ∷ drop (suc i) xs)
  split_at i [] x h = absurd (ground arith)
  split_at zero (y ∷ ys) x h = ground arith
  split_at (suc i) (y ∷ ys) x h = ap (◌∷◌ y) (split_at i ys x h)

pub ==_comm : (a b : ℕ) → (a == b) ≡ (b == a)
==_comm a b = ground arith

pub NoDup-append_last : (xs : List ℕ) (c : ℕ) → NoDup xs → Differs c xs → NoDup (xs ++ (c ∷ []))
NoDup-append_last [] c h k = (tt, tt)
NoDup-append_last (x ∷ xs) c (d, h) (k, ks) = (
  All-append (λ z. (z == x) ≡ false) xs (c ∷ []) d (==_comm c x ∙ k, tt),
  NoDup-append_last xs c h ks,
)

-- Of a list of distinct elements: each differs from those before it, and the list without it has
-- distinct elements.
pub NoDup-before : (xs ys : List ℕ) (c : ℕ) → NoDup (xs ++ (c ∷ ys)) → Differs c xs
NoDup-before [] ys c h = tt
NoDup-before (x ∷ xs) ys c (d, h) =
    (==_comm x c ∙ (All-right (λ z. (z == x) ≡ false) xs (c ∷ ys) d).0, NoDup-before xs ys c h)

pub NoDup-after : (xs ys : List ℕ) (c : ℕ) → NoDup (xs ++ (c ∷ ys)) → Differs c ys
NoDup-after [] ys c (d, h) = d
NoDup-after (x ∷ xs) ys c (d, h) = NoDup-after xs ys c h

pub NoDup-less : (xs ys : List ℕ) (c : ℕ) → NoDup (xs ++ (c ∷ ys)) → NoDup (xs ++ ys)
NoDup-less [] ys c (d, h) = h
NoDup-less (x ∷ xs) ys c (d, h) = (
  All-append (λ z. (z == x) ≡ false) xs ys (All-left (λ z. (z == x) ≡ false) xs (c ∷ ys) d)
      (All-right (λ z. (z == x) ≡ false) xs (c ∷ ys) d).1,
  NoDup-less xs ys c h,
)

pub erase_first-append :
    (xs ys : List ℕ) (c : ℕ) → Differs c xs → erase_first c (xs ++ (c ∷ ys)) ≡ some (xs ++ ys)
erase_first-append [] ys c h = ground arith
erase_first-append (x ∷ xs) ys c (h, hs) = rw (h, erase_first-append xs ys c hs)

pub All-reverse {ℓ κ} : {A : Type ℓ} (P : A → Type κ) (xs : List A) → All P xs → All P (reverse xs)
All-reverse P [] h = tt
All-reverse P (x ∷ xs) (h, hs) =
    subst (All P) (sym (reverse-cons x xs))
      (All-append P (reverse xs) (x ∷ []) (All-reverse P xs hs) (h, tt))

pub NoDup-reverse : (xs : List ℕ) → NoDup xs → NoDup (reverse xs)
NoDup-reverse [] h = tt
NoDup-reverse (x ∷ xs) (d, h) = subst NoDup (sym (reverse-cons x xs)) (
    NoDup-append_last (reverse xs) x (NoDup-reverse xs h)
      (All-reverse (λ z. (z == x) ≡ false) xs d))

pub NoDup-select : (p : ℕ → Bool) (xs : List ℕ) → NoDup xs → NoDup (select p xs)
NoDup-select p [] h = tt
NoDup-select p (x ∷ xs) (d, h) =
    elim (p x) as (λ b. NoDup (if b then x ∷ select p xs else select p xs)) [
      | true ↦ (All-select (λ z. (z == x) ≡ false) p xs d, NoDup-select p xs h)
      | false ↦ NoDup-select p xs h
    ]

-- The first element, if there is one.
abbrev pub head {ℓ} : {A : Type ℓ} → List A → Option A
head [] = none
head (x ∷ xs) = some x
