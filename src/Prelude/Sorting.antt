-- ===== src/Prelude/Sorting.antt =====
-- `sort` with a comparison: the stable sort, as insertion from the right. `le x y` says that the
-- comparison of `x` with `y` is not positive.
use Prim.Native.Nat.{ℕ, ◌+◌, ◌-◌}
use Prim.Native.Nat.{◌/◌, ◌%◌}
use Prim.Native.Char.{code}
use Prim.Native.String.{String}
use mathlib.Core.Path.{◌≡◌}
use mathlib.Core.Logic.{inl, inr}
use mathlib.Core.Bool.{Bool, true, false, ◌||◌, ◌&&◌}
use mathlib.Core.List.{List, [], ◌∷◌, Perm}
use mathlib.Core.List.Perm
use reinforcement_learning_c.Prelude.Lists.{All}
use reinforcement_learning_c.Prelude.Tests.{ltb, ◌==◌, nat_eq, if◌then◌else◌, Bool-cases}

module _ {ℓ} {A : Type ℓ} (le : A → A → Bool) where
  unfoldable pub insert_by : A → List A → List A
  insert_by x [] = x ∷ []
  insert_by x (y ∷ ys) = if le x y then x ∷ y ∷ ys else y ∷ insert_by x ys

  unfoldable pub sort_by : List A → List A
  unfolding insert_by
  sort_by [] = []
  sort_by (x ∷ xs) = insert_by x (sort_by xs)

  -- Each member may stand before the next.
  abbrev pub IsChain : List A → Type 0
  IsChain [] = Unit
  IsChain (x ∷ []) = Unit
  IsChain (x ∷ y ∷ ys) = (le x y ≡ true) × IsChain (y ∷ ys)

  insert_by-perm : (x : A) (xs : List A) → Perm (insert_by x xs) (x ∷ xs)
  unfolding insert_by
  insert_by-perm x [] = Perm.rfl
  insert_by-perm x (y ∷ ys) = elim (Bool-cases (le x y)) [
    | inl before ↦ rw before Perm.rfl
    | inr after ↦ rw after (Perm.trans (Perm.cons y (insert_by-perm x ys)) (Perm.swap x y ys))
  ]

  pub sort_by-perm : (xs : List A) → Perm (sort_by xs) xs
  unfolding sort_by
  sort_by-perm [] = Perm.rfl
  sort_by-perm (x ∷ xs) = Perm.trans (insert_by-perm x (sort_by xs)) (Perm.cons x (sort_by-perm xs))

  module _ (total : (x y : A) → le x y ≡ false → le y x ≡ true) where
    IsChain-insert_by :
        (x y : A) (ys : List A) → le y x ≡ true → IsChain (y ∷ ys) → IsChain (y ∷ insert_by x ys)
    unfolding insert_by
    IsChain-insert_by x y [] h chain = (h, tt)
    IsChain-insert_by x y (z ∷ zs) h chain = elim (Bool-cases (le x z)) [
      | inl before ↦ rw before (h, (before, chain.1))
      | inr after ↦ rw after (chain.0, IsChain-insert_by x z zs (total x z after) chain.1)
    ]

    insert_by-IsChain : (x : A) (xs : List A) → IsChain xs → IsChain (insert_by x xs)
    unfolding insert_by
    insert_by-IsChain x [] chain = tt
    insert_by-IsChain x (y ∷ ys) chain = elim (Bool-cases (le x y)) [
      | inl before ↦ rw before (before, chain)
      | inr after ↦ rw after (IsChain-insert_by x y ys (total x y after) chain)
    ]

    -- Where of two members one may stand before the other, the result is in order.
    pub sort_by-IsChain : (xs : List A) → IsChain (sort_by xs)
    unfolding sort_by
    sort_by-IsChain [] = tt
    sort_by-IsChain (x ∷ xs) = insert_by-IsChain x (sort_by xs) (sort_by-IsChain xs)

module _ {ℓ κ} {A : Type ℓ} (le : A → A → Bool) (P : A → Type κ) where
  All-insert_by : (x : A) (xs : List A) → P x → All P xs → All P (insert_by le x xs)
  unfolding insert_by
  All-insert_by x [] h hs = (h, tt)
  All-insert_by x (y ∷ ys) h hs = elim (Bool-cases (le x y)) [
    | inl before ↦ rw before (h, hs)
    | inr after ↦ rw after (hs.0, All-insert_by x ys h hs.1)
  ]

  -- What holds of all members holds of them once sorted.
  pub All-sort_by : (xs : List A) → All P xs → All P (sort_by le xs)
  unfolding sort_by
  All-sort_by [] h = tt
  All-sort_by (x ∷ xs) h = All-insert_by x (sort_by le xs) h.0 (All-sort_by xs h.1)

-- A relation of each member with the next.
abbrev pub Neighbours {ℓ κ} : {A : Type ℓ} → (A → A → Type κ) → List A → Type κ
Neighbours R [] = Unit
Neighbours R (x ∷ []) = Unit
Neighbours R (x ∷ y ∷ ys) = R x y × Neighbours R (y ∷ ys)

pub IsChain-Neighbours {ℓ κ} :
    {A : Type ℓ} (le : A → A → Bool) (R : A → A → Type κ)
    → ((x y : A) → le x y ≡ true → R x y)
    → (xs : List A) → IsChain le xs
    → Neighbours R xs
IsChain-Neighbours le R f [] h = tt
IsChain-Neighbours le R f (x ∷ []) h = tt
IsChain-Neighbours le R f (x ∷ y ∷ ys) h = (f x y h.0, IsChain-Neighbours le R f (y ∷ ys) h.1)

-- The UTF-16 code units of a text.
code_units : String → List ℕ
code_units String.[] = []
code_units (String.◌∷◌ c s) =
    if ltb 0xffff (code c)
    then (0xd800 + (code c - 0x10000) / 1024) ∷ (0xdc00 + (code c - 0x10000) % 1024) ∷ code_units s
    else code c ∷ code_units s

le_units : List ℕ → List ℕ → Bool
le_units [] ys = true
le_units (x ∷ xs) [] = false
le_units (x ∷ xs) (y ∷ ys) = ltb x y || (x == y && le_units xs ys)

-- `texts.sort()`
unfoldable pub sort_texts : List String → List String
unfolding sort_by code_units le_units
sort_texts = sort_by (λ s t. le_units (code_units s) (code_units t))

pub sort_texts-perm : (texts : List String) → Perm (sort_texts texts) texts
unfolding sort_texts
sort_texts-perm = sort_by-perm _
