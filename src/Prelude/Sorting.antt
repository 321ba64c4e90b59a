-- ===== src/Prelude/Sorting.antt =====
-- Python's `sort` and `sorted` by a comparison: a stable sort, and what it guarantees.
use mathlib.Core.Path.{◌≡◌, refl}
use mathlib.Core.Logic.{◌⊎◌, inl, inr}
use mathlib.Core.Bool.{Bool, true, false}
use mathlib.Core.List.{List, [], ◌∷◌}
use Prim.Native.Nat.{ℕ, zero, suc}
use native.Mathlib.Omega.{arith}
use adhikar_ai.Prelude.Tests.{if◌then◌else◌, Bool-cases}
use adhikar_ai.Prelude.Lists.{length, take, Member, here, next, Member-take}

module _ {ℓ} {A : Type ℓ} (le : A → A → Bool) where
  unfoldable pub insert_sorted : A → List A → List A
  insert_sorted x [] = x ∷ []
  insert_sorted x (y ∷ ys) = if le x y then x ∷ y ∷ ys else y ∷ insert_sorted x ys

  -- Equal elements keep their order.
  unfoldable pub sort : List A → List A
  unfolding insert_sorted
  sort [] = []
  sort (x ∷ xs) = insert_sorted x (sort xs)

  abbrev pub IsSorted : List A → Type ℓ
  IsSorted [] = Unit
  IsSorted (x ∷ xs) = ((y : A) → Member y xs → le x y ≡ true) × IsSorted xs

  Member-insert_sorted :
      (x a : A) (ys : List A) → Member a (insert_sorted x ys) → (a ≡ x) ⊎ Member a ys
  unfolding insert_sorted
  Member-insert_sorted x a [] (here e) = inl e
  Member-insert_sorted x a [] (next m) = elim m [ ]
  Member-insert_sorted x a (y ∷ ys) m = elim (Bool-cases (le x y)) [
    | inl h ↦ before (rw h at m)
    | inr h ↦ after (Member-insert_sorted x a ys) (rw h at m)
  ]
    where
      before : Member a (x ∷ y ∷ ys) → (a ≡ x) ⊎ Member a (y ∷ ys)
      before (here e) = inl e
      before (next k) = inr k

      after :
          (Member a (insert_sorted x ys) → (a ≡ x) ⊎ Member a ys)
          → Member a (y ∷ insert_sorted x ys)
          → (a ≡ x) ⊎ Member a (y ∷ ys)
      after ih (here e) = inr (here e)
      after ih (next k) = elim (ih k) [ inl e ↦ inl e | inr j ↦ inr (next j) ]

  insert_sorted-Member :
      (x a : A) (ys : List A) → (a ≡ x) ⊎ Member a ys → Member a (insert_sorted x ys)
  unfolding insert_sorted
  insert_sorted-Member x a [] (inl e) = here e
  insert_sorted-Member x a [] (inr m) = elim m [ ]
  insert_sorted-Member x a (y ∷ ys) m = elim (Bool-cases (le x y)) [
    | inl h ↦ rw h (elim m [ inl e ↦ here e | inr k ↦ next k ])
    | inr h ↦ rw h (after (insert_sorted-Member x a ys) m)
  ]
    where
      after :
          ((a ≡ x) ⊎ Member a ys → Member a (insert_sorted x ys))
          → (a ≡ x) ⊎ Member a (y ∷ ys)
          → Member a (y ∷ insert_sorted x ys)
      after ih (inl e) = next (ih (inl e))
      after ih (inr (here e)) = here e
      after ih (inr (next k)) = next (ih (inr k))

  -- Sorting keeps exactly the elements.
  pub Member-sort : (a : A) (xs : List A) → Member a (sort xs) → Member a xs
  unfolding sort
  Member-sort a [] m = m
  Member-sort a (x ∷ xs) m = elim (Member-insert_sorted x a (sort xs) m) [
    | inl e ↦ here e
    | inr k ↦ next (Member-sort a xs k)
  ]

  pub sort-Member : (a : A) (xs : List A) → Member a xs → Member a (sort xs)
  unfolding sort
  sort-Member a [] m = m
  sort-Member a (x ∷ xs) (here e) = insert_sorted-Member x a (sort xs) (inl e)
  sort-Member a (x ∷ xs) (next m) = insert_sorted-Member x a (sort xs) (inr (sort-Member a xs m))

  length-insert_sorted : (x : A) (ys : List A) → length (insert_sorted x ys) ≡ suc (length ys)
  unfolding insert_sorted
  length-insert_sorted x [] = refl
  length-insert_sorted x (y ∷ ys) = ground (arith, length-insert_sorted x ys)

  pub length-sort : (xs : List A) → length (sort xs) ≡ length xs
  unfolding sort
  length-sort [] = refl
  length-sort (x ∷ xs) = omega (arith, length-insert_sorted x (sort xs), length-sort xs)

module _ {ℓ} {A : Type ℓ} (le : A → A → Bool)
    (total : (x y : A) → (le x y ≡ true) ⊎ (le y x ≡ true))
    (trans : (x y z : A) → le x y ≡ true → le y z ≡ true → le x z ≡ true) where
  insert_sorted-IsSorted :
      (x : A) (ys : List A) → IsSorted le ys → IsSorted le (insert_sorted le x ys)
  unfolding insert_sorted
  insert_sorted-IsSorted x [] s = ((λ y m. elim m [ ]), tt)
  insert_sorted-IsSorted x (y ∷ ys) (below, s) = elim (Bool-cases (le x y)) [
    | inl h ↦ rw h (below_x h, (below, s))
    | inr h ↦ rw h (above h, insert_sorted-IsSorted x ys s)
  ]
    where
      below_x : le x y ≡ true → (z : A) → Member z (y ∷ ys) → le x z ≡ true
      below_x h z (here e) = rw e h
      below_x h z (next m) = trans x y z h (below z m)

      above : le x y ≡ false → (z : A) → Member z (insert_sorted le x ys) → le y z ≡ true
      above h z m = elim (Member-insert_sorted le x z ys m) [
        | inl e ↦ elim (total x y) [ inl k ↦ cc | inr k ↦ rw e k ]
        | inr k ↦ below z k
      ]

  -- Every element is at most each later one.
  pub sort-IsSorted : (xs : List A) → IsSorted le (sort le xs)
  unfolding sort
  sort-IsSorted [] = tt
  sort-IsSorted (x ∷ xs) = insert_sorted-IsSorted x (sort le xs) (sort-IsSorted xs)

module _ {ℓ} {A : Type ℓ} (le : A → A → Bool) where
  pub IsSorted-take : (n : ℕ) (xs : List A) → IsSorted le xs → IsSorted le (take n xs)
  IsSorted-take zero xs s = tt
  IsSorted-take (suc n) [] s = tt
  IsSorted-take (suc n) (x ∷ xs) (below, s) =
      ((λ y m. below y (Member-take n y xs m)), IsSorted-take n xs s)
