-- ===== src/Prelude/Tests.antt =====
-- Boolean tests, the conditional, and equality as an interface.
use Prim.Native.Nat.{ℕ, ◌≤◌, ◌<◌, compare, Ordering}
use mathlib.Core.Path.{◌≡◌, refl}
use mathlib.Core.Logic.{◌↔◌, ◌⊎◌, inl, inr}
use mathlib.Core.Bool.{Bool, true, false, not}
use mathlib.Core.Option.{Option, none, some}
use mathlib.Core.List.{List}
use native.Mathlib.Omega.{arith}
use native.Mathlib.Decide.{ℕ_discrete}

abbrev pub ltb : ℕ → ℕ → Bool
ltb a b = elim (compare a b) [ Ordering.lt ↦ true | _ ↦ false ]

abbrev pub leb : ℕ → ℕ → Bool
leb a b = elim (compare a b) [ Ordering.gt ↦ false | _ ↦ true ]

infix 1 if◌then◌else◌
abbrev pub if◌then◌else◌ {ℓ} : {A : Type ℓ} → Bool → A → A → A
if true then x else y = x
if false then x else y = y

pub ltb→lt : (a b : ℕ) → ltb a b ≡ true → a < b
ltb→lt a b h = ground arith

pub lt→ltb : (a b : ℕ) → a < b → ltb a b ≡ true
lt→ltb a b h = ground arith

pub leb→le : (a b : ℕ) → leb a b ≡ true → a ≤ b
leb→le a b h = ground arith

pub Bool-cases : (b : Bool) → (b ≡ true) ⊎ (b ≡ false)
Bool-cases true = inl refl
Bool-cases false = inr refl

pub Option-cases {ℓ} : {A : Type ℓ} (o : Option A) → (o ≡ none) ⊎ ((a : A) × (o ≡ some a))
Option-cases none = inl refl
Option-cases (some a) = inr (a, refl)

-- Rust's `PartialEq`, for types whose equality is decided field by field.
pub record Eq {ℓ} (A : Type ℓ) : Type ℓ where
  pub same : A → A → Bool
  pub same_iff : (x y : A) → (same x y ≡ true) ↔ (x ≡ y)

module _ {ℓ} {A : Type ℓ} ⦃interface : Eq A⦄ where
  infix 50 ◌==◌ ◌!=◌
  abbrev pub ◌==◌ : A → A → Bool
  x == y = interface.same x y

  abbrev pub ◌!=◌ : A → A → Bool
  x != y = not (x == y)

abbrev pub nat_beq : ℕ → ℕ → Bool
nat_beq a b = elim (compare a b) [ Ordering.eq ↦ true | _ ↦ false ]

pub nat_beq_iff : (a b : ℕ) → (nat_beq a b ≡ true) ↔ (a ≡ b)
nat_beq_iff a b = ground arith

instance abbrev pub ℕ_eq : Eq ℕ
ℕ_eq = record { same = nat_beq; same_iff = nat_beq_iff }

abbrev pub decided {ℓ} : {A : Type ℓ} → Dec A → Bool
decided (yes _) = true
decided (no _) = false

module _ {ℓ} {A : Type ℓ} (d : Discrete A) where
  abbrev pub discrete_beq : A → A → Bool
  discrete_beq a b = decided (d a b)

  pub discrete_beq_iff : (a b : A) → (discrete_beq a b ≡ true) ↔ (a ≡ b)
  discrete_beq_iff a b = go (d a b)
    where
      go : (x : Dec (a ≡ b)) → (decided x ≡ true) ↔ (a ≡ b)
      go (yes p) = ((λ _. p), (λ _. refl))
      go (no n) = ((λ e. cc), (λ p. absurd (n p)))

  abbrev pub discrete_eq : Eq A
  discrete_eq = record { same = discrete_beq; same_iff = discrete_beq_iff }

module _ {ℓ} {A : Type ℓ} ⦃e : Eq A⦄ where
  pub ==_refl : (a : A) → (a == a) ≡ true
  ==_refl a = (e.same_iff a a).1 refl

  pub eq_of_== : (a b : A) → (a == b) ≡ true → a ≡ b
  eq_of_== a b = (e.same_iff a b).0

abbrev pub Bytes : Type 0
Bytes = List ℕ

unfoldable pub Bytes-discrete : Discrete Bytes
Bytes-discrete = hlevel ℕ_discrete

instance abbrev pub Bytes_eq : Eq Bytes
Bytes_eq = discrete_eq Bytes-discrete

unfoldable pub Option_Bytes-discrete : Discrete (Option Bytes)
Option_Bytes-discrete = hlevel Bytes-discrete

instance abbrev pub Option_Bytes_eq : Eq (Option Bytes)
Option_Bytes_eq = discrete_eq Option_Bytes-discrete

unfoldable pub Bool-discrete : Discrete Bool
Bool-discrete = hlevel

instance abbrev pub Bool_eq : Eq Bool
Bool_eq = discrete_eq Bool-discrete
