-- ===== src/Common/Tests.antt =====
-- Conditions: Boolean tests on numbers, the conditional, and deep equality as an interface.
use Prim.Native.Nat.{ℕ, compare, Ordering}
use Prim.Native.String.{String}
use mathlib.Core.Path.{◌≡◌, refl}
use mathlib.Core.Logic.{◌≢◌, ◌↔◌, ◌⊎◌, inl, inr}
use mathlib.Core.Bool.{Bool, true, false}
use mathlib.Core.Option.{Option, none, some}
use native.Mathlib.Omega.{arith}
use text.Mathlib.Text.{◌==◌ as str_eq}
use text.Mathlib.TextEquality.{eq_iff}

abbrev pub ltb : ℕ → ℕ → Bool
ltb a b = elim (compare a b) [ Ordering.lt ↦ true | _ ↦ false ]

abbrev pub leb : ℕ → ℕ → Bool
leb a b = elim (compare a b) [ Ordering.gt ↦ false | _ ↦ true ]

abbrev pub nat_beq : ℕ → ℕ → Bool
nat_beq a b = elim (compare a b) [ Ordering.eq ↦ true | _ ↦ false ]

infix 1 if◌then◌else◌
abbrev pub if◌then◌else◌ {ℓ} : {A : Type ℓ} → Bool → A → A → A
if true then x else y = x
if false then x else y = y

pub nat_beq_iff : (a b : ℕ) → (nat_beq a b ≡ true) ↔ (a ≡ b)
nat_beq_iff a b = ground arith

-- What the code relies on in `equal` (fast-deep-equal), in `==` on numbers and texts, and in the
-- key comparison of `Map` and `Set`: the test decides equality of the values compared.
pub record DeepEqual {ℓ} (A : Type ℓ) : Type ℓ where
  pub equal : A → A → Bool
  pub equal_iff : (x y : A) → (equal x y ≡ true) ↔ (x ≡ y)

abbrev pub bool_beq : Bool → Bool → Bool
bool_beq true b = b
bool_beq false true = false
bool_beq false false = true

pub bool_beq_iff : (a b : Bool) → (bool_beq a b ≡ true) ↔ (a ≡ b)
bool_beq_iff a b = ground arith

-- The values compared in the panel: texts, flags and numbers.
instance abbrev pub string_eq : DeepEqual String
string_eq = record { equal_iff = eq_iff; equal = str_eq }

instance abbrev pub bool_eq : DeepEqual Bool
bool_eq = record { equal_iff = bool_beq_iff; equal = bool_beq }

instance abbrev pub nat_eq : DeepEqual ℕ
nat_eq = record { equal_iff = nat_beq_iff; equal = nat_beq }

infix 50 ◌==◌
abbrev pub ◌==◌ {ℓ} : {T : Type ℓ} ⦃eq : DeepEqual T⦄ → T → T → Bool
◌==◌ ⦃eq⦄ x y = eq.equal x y

module _ {ℓ} {A : Type ℓ} ⦃e : DeepEqual A⦄ where
  pub ==_iff : (a b : A) → ((a == b) ≡ true) ↔ (a ≡ b)
  ==_iff a b = e.equal_iff a b

  pub ==_refl : (a : A) → (a == a) ≡ true
  ==_refl a = (e.equal_iff a a).1 refl

pub Bool-cases : (b : Bool) → (b ≡ true) ⊎ (b ≡ false)
Bool-cases true = inl refl
Bool-cases false = inr refl

pub Option-cases {ℓ} : {A : Type ℓ} (o : Option A) → (o ≡ none) ⊎ ((a : A) × (o ≡ some a))
Option-cases none = inl refl
Option-cases (some a) = inr (a, refl)

pub ==_false {ℓ} : {A : Type ℓ} ⦃e : DeepEqual A⦄ (a b : A) → a ≢ b → (a == b) ≡ false
==_false ⦃e⦄ a b h = elim (Bool-cases (e.equal a b)) [
  | inl p ↦ absurd (h ((e.equal_iff a b).0 p))
  | inr p ↦ p
]
