-- ===== src/Common/Equality.antt =====
-- Decidable equality as an interface: what a Python `==` between keys is taken to be.
use Prim.Native.Nat.{ℕ}
use Prim.Native.String.{String}
use mathlib.Core.Path.{◌≡◌, refl}
use mathlib.Core.Logic.{◌↔◌}
use mathlib.Core.Bool.{Bool, true, false, ◌&&◌}
use mathlib.Core.List.{List, [], ◌∷◌}
use native.Mathlib.Omega.{arith}
use text.Mathlib.Text.{◌==◌ as string_beq}
use text.Mathlib.TextEquality.{eq_iff}
use agent_rl.Common.Tests.{==_iff, ◌==◌}

pub record Eq {ℓ} (A : Type ℓ) : Type ℓ where
  pub test : A → A → Bool
  pub test_iff : (a b : A) → (test a b ≡ true) ↔ (a ≡ b)

-- The test of the instance in scope.
abbrev pub beq {ℓ} : {A : Type ℓ} ⦃e : Eq A⦄ → A → A → Bool
beq ⦃e⦄ = e.test

pub beq_iff {ℓ} : {A : Type ℓ} ⦃e : Eq A⦄ (a b : A) → (beq a b ≡ true) ↔ (a ≡ b)
beq_iff ⦃e⦄ a b = e.test_iff a b

instance abbrev pub nat_eq : Eq ℕ
nat_eq = record { test = λ a b. a == b; test_iff = ==_iff }

instance abbrev pub string_eq : Eq String
string_eq = record { test = string_beq; test_iff = eq_iff }

-- Lists of numbers, and pairs
abbrev pub list_beq : List ℕ → List ℕ → Bool
list_beq [] [] = true
list_beq [] (y ∷ ys) = false
list_beq (x ∷ xs) [] = false
list_beq (x ∷ xs) (y ∷ ys) = x == y && list_beq xs ys

pub list_beq_iff : (xs ys : List ℕ) → (list_beq xs ys ≡ true) ↔ (xs ≡ ys)
list_beq_iff [] [] = (λ e. refl, λ e. refl)
list_beq_iff [] (y ∷ ys) = ground arith
list_beq_iff (x ∷ xs) [] = ground arith
list_beq_iff (x ∷ xs) (y ∷ ys) = ground (arith, list_beq_iff xs ys)

instance abbrev pub list_eq : Eq (List ℕ)
list_eq = record { test = list_beq; test_iff = list_beq_iff }

pub pair_iff : (p q : List ℕ × List ℕ) → ((list_beq p.0 q.0 && list_beq p.1 q.1) ≡ true) ↔ (p ≡ q)
pair_iff (a, b) (c, d) = ground (arith, list_beq_iff a c, list_beq_iff b d)

instance abbrev pub pair_eq : Eq (List ℕ × List ℕ)
pair_eq = record { test = λ p q. list_beq p.0 q.0 && list_beq p.1 q.1; test_iff = pair_iff }
