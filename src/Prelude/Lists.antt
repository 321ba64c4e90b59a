-- ===== src/Prelude/Lists.antt =====
-- Lists measured by native numbers and filtered by Boolean tests, under the library's names.
use Prim.Native.Nat.{ℕ, zero, suc, ◌+◌, ◌≤◌}
use mathlib.Core.Path.{◌≡◌, refl, sym, ap}
use mathlib.Core.Logic.{◌⊎◌, inl, inr}
use mathlib.Core.Bool.{Bool, true, false, ◌&&◌, ◌||◌}
use mathlib.Core.Option.{Option, none, some}
use mathlib.Core.List.{List, [], ◌∷◌, ◌++◌, map}
use native.Mathlib.Omega.{arith}
use adhikar_ai.Prelude.Tests.{if◌then◌else◌, Bool-cases}
use adhikar_ai.Prelude.Equality.{Eq, ◌==◌, contains}

-- `a` is an element, with its place kept.
pub data Member {ℓ} {A : Type ℓ} (a : A) : List A → Type ℓ where
  here : {x : A} {xs : List A} → a ≡ x → Member a (x ∷ xs)
  next : {x : A} {xs : List A} → Member a xs → Member a (x ∷ xs)

module _ {ℓ} {A : Type ℓ} where
  abbrev pub length : List A → ℕ
  length [] = 0
  length (x ∷ xs) = suc (length xs)

  -- `[x for x in xs if p(x)]`
  abbrev pub filter : (A → Bool) → List A → List A
  filter p [] = []
  filter p (x ∷ xs) = if p x then x ∷ filter p xs else filter p xs

  abbrev pub any : (A → Bool) → List A → Bool
  any p [] = false
  any p (x ∷ xs) = p x || any p xs

  abbrev pub all : (A → Bool) → List A → Bool
  all p [] = true
  all p (x ∷ xs) = p x && all p xs

  -- `xs[:n]`
  abbrev pub take : ℕ → List A → List A
  take zero xs = []
  take (suc n) [] = []
  take (suc n) (x ∷ xs) = x ∷ take n xs

  pub length-append : (xs ys : List A) → length (xs ++ ys) ≡ length xs + length ys
  length-append [] ys = omega arith
  length-append (x ∷ xs) ys = omega (arith, length-append xs ys)

  pub length-filter-le : (p : A → Bool) (xs : List A) → length (filter p xs) ≤ length xs
  length-filter-le p [] = omega arith
  length-filter-le p (x ∷ xs) = ground (arith, length-filter-le p xs)

  pub filter-append_out :
      (p : A → Bool) (a : A) (xs : List A) → p a ≡ false → filter p (xs ++ a ∷ []) ≡ filter p xs
  filter-append_out p a [] e = rw e refl
  filter-append_out p a (x ∷ xs) e = ground (arith, filter-append_out p a xs e)

  pub length-take-le : (n : ℕ) (xs : List A) → length (take n xs) ≤ n
  length-take-le zero xs = omega arith
  length-take-le (suc n) [] = omega arith
  length-take-le (suc n) (x ∷ xs) = omega (arith, length-take-le n xs)

  pub Member-append_left : (a : A) (xs ys : List A) → Member a xs → Member a (xs ++ ys)
  Member-append_left a [] ys m = elim m [ ]
  Member-append_left a (x ∷ xs) ys (here e) = here e
  Member-append_left a (x ∷ xs) ys (next m) = next (Member-append_left a xs ys m)

  pub Member-append_right : (a : A) (xs ys : List A) → Member a ys → Member a (xs ++ ys)
  Member-append_right a [] ys m = m
  Member-append_right a (x ∷ xs) ys m = next (Member-append_right a xs ys m)

  pub Member-append : (a : A) (xs ys : List A) → Member a (xs ++ ys) → Member a xs ⊎ Member a ys
  Member-append a [] ys m = inr m
  Member-append a (x ∷ xs) ys (here e) = inl (here e)
  Member-append a (x ∷ xs) ys (next m) = elim (Member-append a xs ys m) [
    | inl h ↦ inl (next h)
    | inr h ↦ inr h
  ]

  pub Member-filter :
      (p : A → Bool) (a : A) (xs : List A) → Member a (filter p xs) → Member a xs × (p a ≡ true)
  Member-filter p a [] m = elim m [ ]
  Member-filter p a (x ∷ xs) m = elim (Bool-cases (p x)) [
    | inl h ↦ here_or_next (λ k. Member-filter p a xs k) h (rw h at m)
    | inr h ↦ let (k, e) = Member-filter p a xs (rw h at m) in (next k, e)
  ]
    where
      here_or_next :
          (Member a (filter p xs) → Member a xs × (p a ≡ true))
          → p x ≡ true
          → Member a (x ∷ filter p xs)
          → Member a (x ∷ xs) × (p a ≡ true)
      here_or_next ih h (here e) = (here e, rw e h)
      here_or_next ih h (next k) = let (m', e) = ih k in (next m', e)

  pub Member-filter_of :
      (p : A → Bool) (a : A) (xs : List A) → Member a xs → p a ≡ true → Member a (filter p xs)
  Member-filter_of p a [] m h = elim m [ ]
  Member-filter_of p a (x ∷ xs) (here e) h = let h' : p x ≡ true = rw (← e) h in rw h' (here e)
  Member-filter_of p a (x ∷ xs) (next m) h = elim (Bool-cases (p x)) [
    | inl k ↦ rw k (next (Member-filter_of p a xs m h))
    | inr k ↦ rw k (Member-filter_of p a xs m h)
  ]

  pub Member-take : (n : ℕ) (a : A) (xs : List A) → Member a (take n xs) → Member a xs
  Member-take zero a xs m = elim m [ ]
  Member-take (suc n) a [] m = elim m [ ]
  Member-take (suc n) a (x ∷ xs) (here e) = here e
  Member-take (suc n) a (x ∷ xs) (next m) = next (Member-take n a xs m)

module _ {ℓ} {A : Type ℓ} where
  -- What `xs[:n]` cuts off is missing only from a full list.
  pub take-Member :
      (n : ℕ) (a : A) (xs : List A) → Member a xs → Member a (take n xs) ⊎ (length (take n xs) ≡ n)
  take-Member n a [] m = elim m [ ]
  take-Member zero a (x ∷ xs) m = inr refl
  take-Member (suc n) a (x ∷ xs) (here e) = inl (here e)
  take-Member (suc n) a (x ∷ xs) (next m) = elim (take-Member n a xs m) [
    | inl k ↦ inl (next k)
    | inr full ↦ inr (ap suc full)
  ]

module _ {ℓ κ} {A : Type ℓ} (P : A → Type κ) where
  abbrev pub All : List A → Type κ
  All [] = Unit
  All (x ∷ xs) = P x × All xs

  pub All-append : (xs ys : List A) → All xs → All ys → All (xs ++ ys)
  All-append [] ys hx hy = hy
  All-append (x ∷ xs) ys (p, hx) hy = (p, All-append xs ys hx hy)

  pub All-split : (xs ys : List A) → All (xs ++ ys) → All xs × All ys
  All-split [] ys h = (tt, h)
  All-split (x ∷ xs) ys (p, h) = let (a, b) = All-split xs ys h in ((p, a), b)

  pub All-take : (n : ℕ) (xs : List A) → All xs → All (take n xs)
  All-take zero xs h = tt
  All-take (suc n) [] h = tt
  All-take (suc n) (x ∷ xs) (p, h) = (p, All-take n xs h)

  pub All-Member : (xs : List A) {a : A} → All xs → Member a xs → P a
  All-Member [] h m = elim m [ ]
  All-Member (x ∷ xs) (p, h) (here e) = rw e p
  All-Member (x ∷ xs) (p, h) (next m) = All-Member xs h m

  pub All-of_Member : (xs : List A) → ((a : A) → Member a xs → P a) → All xs
  All-of_Member [] h = tt
  All-of_Member (x ∷ xs) h = (h x (here refl), All-of_Member xs (λ a m. h a (next m)))

module _ {ℓ κ} {A : Type ℓ} {B : Type κ} where
  pub length-map : (f : A → B) (xs : List A) → length (map f xs) ≡ length xs
  length-map f [] = refl
  length-map f (x ∷ xs) = ap suc (length-map f xs)

  pub Member-map :
      (f : A → B) (b : B) (xs : List A) → Member b (map f xs) → (a : A) × Member a xs × (b ≡ f a)
  Member-map f b [] m = elim m [ ]
  Member-map f b (x ∷ xs) (here e) = (x, here refl, e)
  Member-map f b (x ∷ xs) (next m) = let (a, k, e) = Member-map f b xs m in (a, next k, e)

  pub Member-map_of : (f : A → B) (a : A) (xs : List A) → Member a xs → Member (f a) (map f xs)
  Member-map_of f a [] m = elim m [ ]
  Member-map_of f a (x ∷ xs) (here e) = here (ap f e)
  Member-map_of f a (x ∷ xs) (next m) = next (Member-map_of f a xs m)

module _ {ℓ} {A : Type ℓ} ⦃e : Eq A⦄ where
  pub contains-Member : (a : A) (xs : List A) → contains a xs ≡ true → Member a xs
  contains-Member a [] h = absurd (ground arith)
  contains-Member a (x ∷ xs) h = elim (Bool-cases (a == x)) [
    | inl same ↦ here ((e.test_iff a x).0 same)
    | inr other ↦ next (contains-Member a xs (ground arith))
  ]

  pub Member-contains : (a : A) (xs : List A) → Member a xs → contains a xs ≡ true
  Member-contains a [] m = elim m [ ]
  Member-contains a (x ∷ xs) (here h) = ground (arith, e.test_iff a x)
  Member-contains a (x ∷ xs) (next m) = ground (arith, Member-contains a xs m)

module _ {ℓ} {A : Type ℓ} (p : A → Bool) where
  pub any-Member : (xs : List A) → any p xs ≡ true → (a : A) × Member a xs × (p a ≡ true)
  any-Member [] h = absurd (ground arith)
  any-Member (x ∷ xs) h = elim (Bool-cases (p x)) [
    | inl k ↦ (x, here refl, k)
    | inr k ↦ let (a, m, q) = any-Member xs (ground arith) in (a, next m, q)
  ]

  pub Member-any : (a : A) (xs : List A) → Member a xs → p a ≡ true → any p xs ≡ true
  Member-any a [] m h = elim m [ ]
  Member-any a (x ∷ xs) (here q) h = let k : p x ≡ true = rw (← q) h in ground arith
  Member-any a (x ∷ xs) (next m) h = ground (arith, Member-any a xs m h)

module _ {ℓ} {A : Type ℓ} (p : A → Bool) where
  -- The first element that passes: a query with `limit(1)`, or a loop that returns.
  abbrev pub find : List A → Option A
  find [] = none
  find (x ∷ xs) = if p x then some x else find xs

  pub find-some : (a : A) (xs : List A) → find xs ≡ some a → Member a xs × (p a ≡ true)
  find-some a [] h = absurd (ground arith)
  find-some a (x ∷ xs) h = elim (Bool-cases (p x)) [
    | inl k ↦ let e : x ≡ a = ground arith in (here (sym e), rw (← e) k)
    | inr k ↦ let (m, q) = find-some a xs (ground arith) in (next m, q)
  ]

  pub find-none : (a : A) (xs : List A) → find xs ≡ none → Member a xs → p a ≡ false
  find-none a [] h m = elim m [ ]
  find-none a (x ∷ xs) h (here e) = rw e (ground arith)
  find-none a (x ∷ xs) h (next m) = find-none a xs (ground arith) m
