-- ===== src/Base/Lists.antt =====
-- Lists measured by native numbers, and the tests and predicates on lists that the parts share.
use Prim.Native.Nat.{ℕ, suc, ◌+◌, ◌≤◌}
use mathlib.Core.Bool.{Bool, true, false, not, ◌||◌}
use mathlib.Core.List.{List, [], ◌∷◌, ◌++◌}
use mathlib.Core.Logic.{◌⊎◌, inl, inr}
use mathlib.Core.Path.{◌≡◌, sym, subst}
use native.Mathlib.Omega.{arith}
use dns_go.Base.Test.{if◌then◌else◌, Eq, ◌==◌, Bool-cases}

module _ {ℓ} {A : Type ℓ} where
  abbrev pub length : List A → ℕ
  length [] = 0
  length (x ∷ xs) = suc (length xs)

  pub length-append : (xs ys : List A) → length (xs ++ ys) ≡ length xs + length ys
  length-append [] ys = omega arith
  length-append (x ∷ xs) ys = omega (arith, length-append xs ys)

  -- `len(xs) == 0`.
  abbrev pub is_nil : List A → Bool
  is_nil [] = true
  is_nil (x ∷ xs) = false

  -- `filter` by a Boolean test, the shape of every `for … { if !p { continue }; append }` loop.
  abbrev pub keep : (A → Bool) → List A → List A
  keep p [] = []
  keep p (x ∷ xs) = if p x then x ∷ keep p xs else keep p xs

  abbrev pub any : (A → Bool) → List A → Bool
  any p [] = false
  any p (x ∷ xs) = p x || any p xs

  pub length-keep-le : (p : A → Bool) (xs : List A) → length (keep p xs) ≤ length xs
  length-keep-le p [] = omega arith
  length-keep-le p (x ∷ xs) = ground (arith, length-keep-le p xs)

  -- What a test keeps and what it drops make up the list.
  pub length-keep-not :
      (p : A → Bool) (xs : List A)
      → length (keep p xs) + length (keep (λ x. not (p x)) xs) ≡ length xs
  length-keep-not p [] = omega arith
  length-keep-not p (x ∷ xs) = ground (arith, length-keep-not p xs)

module _ {ℓ κ} {A : Type ℓ} (P : A → Type κ) where
  abbrev pub All : List A → Type κ
  All [] = Unit
  All (x ∷ xs) = P x × All xs

  pub All-append : (xs ys : List A) → All xs → All ys → All (xs ++ ys)
  All-append [] ys _ hy = hy
  All-append (x ∷ xs) ys (px, hx) hy = (px, All-append xs ys hx hy)

  pub All-keep : (p : A → Bool) (xs : List A) → All xs → All (keep p xs)
  All-keep p [] _ = tt
  All-keep p (x ∷ xs) (px, h) = ground (arith, All-keep p xs h)

module _ {ℓ} {A : Type ℓ} ⦃e : Eq A⦄ where
  abbrev pub contains : A → List A → Bool
  contains a = any (λ x. x == a)

module _ {A : Type 0} where
  -- Membership, by recursion.
  abbrev pub In : A → List A → Type 0
  In a [] = ⊥
  In a (x ∷ xs) = (a ≡ x) ⊎ In a xs

  pub In-keep : (p : A → Bool) (a : A) (xs : List A) → In a (keep p xs) → In a xs × (p a ≡ true)
  In-keep p a [] h = absurd h
  In-keep p a (x ∷ xs) h = elim (Bool-cases (p x)) [
    | inl pass ↦
        let h' : (a ≡ x) ⊎ In a (keep p xs) = rw pass at h in
        elim h' [
          | inl e ↦ (inl e, rw e pass)
          | inr m ↦ let (here, ok_a) = In-keep p a xs m in (inr here, ok_a)
        ]
    | inr drop ↦ let (here, ok_a) = In-keep p a xs (rw drop at h) in (inr here, ok_a)
  ]

  pub All-In : (P : A → Type 0) (a : A) (xs : List A) → All P xs → In a xs → P a
  All-In P a [] h m = absurd m
  All-In P a (x ∷ xs) (px, h) (inl e) = subst P (sym e) px
  All-In P a (x ∷ xs) (px, h) (inr m) = All-In P a xs h m

  pub keep-nil : (p : A → Bool) (xs : List A) → keep p xs ≡ [] → All (λ a. p a ≡ false) xs
  keep-nil p [] h = tt
  keep-nil p (x ∷ xs) h = ground (arith, keep-nil p xs)
