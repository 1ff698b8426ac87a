-- ===== src/Base/Test.antt =====
-- Boolean tests, the conditional, equality as an interface, and results that carry an error.
use Prim.Native.Nat.{ℕ, ◌≤◌, ◌<◌, compare, Ordering}
use mathlib.Core.Bool.{Bool, true, false}
use mathlib.Core.Logic.{◌↔◌, ◌⊎◌, inl, inr}
use mathlib.Core.Option.{Option, none, some}
use mathlib.Core.Path.{◌≡◌, refl}
use native.Mathlib.Omega.{arith}

abbrev pub ltb : ℕ → ℕ → Bool
ltb a b = elim (compare a b) [ Ordering.lt ↦ true | _ ↦ false ]

abbrev pub leb : ℕ → ℕ → Bool
leb a b = elim (compare a b) [ Ordering.gt ↦ false | _ ↦ true ]

abbrev pub nat_beq : ℕ → ℕ → Bool
nat_beq a b = elim (compare a b) [ Ordering.eq ↦ true | _ ↦ false ]

infix 1 if◌then◌else◌
abbrev pub if◌then◌else◌ {ℓ} : {A : Type ℓ} → Bool → A → A → A
if true then x else y = x
if false then x else y = y

pub nat_beq_iff : (a b : ℕ) → (nat_beq a b ≡ true) ↔ (a ≡ b)
nat_beq_iff a b = ground arith

pub ltb→lt : (a b : ℕ) → ltb a b ≡ true → a < b
ltb→lt a b h = ground arith

pub ge_of_ltb : (a b : ℕ) → ltb a b ≡ false → b ≤ a
ge_of_ltb a b h = ground arith

-- Types whose values the program compares by `==`.
pub record Eq {ℓ} (K : Type ℓ) : Type ℓ where
  pub beq : K → K → Bool
  pub beq_iff : (x y : K) → (beq x y ≡ true) ↔ (x ≡ y)

instance abbrev pub nat_eq : Eq ℕ
nat_eq = record { beq_iff = nat_beq_iff; beq = nat_beq }

abbrev pub ◌==◌ {ℓ} : {K : Type ℓ} → ⦃keyed : Eq K⦄ → K → K → Bool
◌==◌ ⦃keyed⦄ x y = keyed.beq x y

infix 50 ◌==◌
pub Bool-cases : (b : Bool) → (b ≡ true) ⊎ (b ≡ false)
Bool-cases true = inl refl
Bool-cases false = inr refl

pub Option-cases {ℓ} : {A : Type ℓ} (o : Option A) → (o ≡ none) ⊎ ((a : A) × (o ≡ some a))
Option-cases none = inl refl
Option-cases (some a) = inr (a, refl)

pub true_of_iff : (a b : Bool) → (a ≡ true → b ≡ true) → (b ≡ true → a ≡ true) → a ≡ b
true_of_iff true b f g = ground (arith, f refl)
true_of_iff false true f g = g refl
true_of_iff false false f g = refl

-- A Go call that returns `(value, error)`.
pub data Result {ℓ} (A : Type ℓ) : Type ℓ where
  ok : A → Result A
  err : Result A

pub Result-cases {ℓ} : {A : Type ℓ} (r : Result A) → (r ≡ err) ⊎ ((a : A) × (r ≡ ok a))
Result-cases err = inl refl
Result-cases (ok a) = inr (a, refl)

-- `if err != nil { return … }` behind a call.
infixl 5 ◌>>=◌
abbrev pub ◌>>=◌ {ℓ κ} : {A : Type ℓ} {B : Type κ} → Result A → (A → Result B) → Result B
ok a >>= f = f a
err >>= f = err

pub bind-ok {ℓ κ} :
    {A : Type ℓ} {B : Type κ} (r : Result A) (f : A → Result B) (y : B)
    → (r >>= f) ≡ ok y
    → (x : A) × (r ≡ ok x) × (f x ≡ ok y)
bind-ok err f y e = absurd (ground (arith, e))
bind-ok (ok x) f y e = (x, refl, e)
