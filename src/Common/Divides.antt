-- ===== src/Common/Divides.antt =====
-- Python's `math.gcd` and `math.lcm` on natural numbers, and divisibility.
use Prim.Native.Nat.{ℕ, zero, suc, ◌+◌, ◌*◌, ◌/◌, ◌%◌, ◌<◌}
use mathlib.Core.Path.{◌≡◌, refl, subst}
use mathlib.Core.Logic.{inl, inr}
use native.Mathlib.Nat.{div-add-mod', mul-div_cancel}
use native.Mathlib.Omega.{arith}
use agent_rl.Common.Tests.{Bool-cases, ◌==◌, ==_iff, if◌then◌else◌}

-- Euclid's loop; the second number falls, so more rounds than it are enough.
gcd_fuel : ℕ → ℕ → ℕ → ℕ
gcd_fuel zero a b = a
gcd_fuel (suc f) a b = let rest = gcd_fuel f b (a % b) in if b == 0 then a else rest

unfoldable pub gcd : ℕ → ℕ → ℕ
unfolding gcd_fuel
gcd a b = gcd_fuel (suc b) a b

-- `math.lcm`, which is 0 when either number is.
unfoldable pub lcm : ℕ → ℕ → ℕ
lcm a b = if gcd a b == 0 then 0 else a / gcd a b * b

-- `d` divides `n`.
abbrev pub Divides : ℕ → ℕ → Type 0
Divides d n = (k : ℕ) × (n ≡ k * d)

Divides-add : (d q b r : ℕ) → Divides d b → Divides d r → Divides d (q * b + r)
Divides-add d q b r (m, e) (n, f) = (q * m + n, grind arith)

gcd_fuel-Divides : (f a b : ℕ) → b < f → Divides (gcd_fuel f a b) a × Divides (gcd_fuel f a b) b
unfolding gcd_fuel
gcd_fuel-Divides zero a b h = elim h [ ]
gcd_fuel-Divides (suc f) a b h = elim (Bool-cases (b == 0)) [
  | inl e ↦ rw e ((1, omega arith), (0, ground (arith, ==_iff b 0)))
  | inr e ↦
      let ih = gcd_fuel-Divides f b (a % b) (ground arith) in
      let g : ℕ = gcd_fuel f b (a % b) in
      rw e (subst (Divides g) (div-add-mod' a b) (Divides-add g (a / b) b (a % b) ih.0 ih.1), ih.0)
]

pub gcd-Divides : (a b : ℕ) → Divides (gcd a b) a × Divides (gcd a b) b
unfolding gcd
gcd-Divides a b = gcd_fuel-Divides (suc b) a b (omega arith)

lcm_cofactor : (g k l a b : ℕ) → 0 < g → a ≡ k * g → b ≡ l * g → a / g * b ≡ l * a
lcm_cofactor g k l a b h e f = rw (e, mul-div_cancel k h, f) (omega arith)

-- Both numbers divide their least common multiple.
pub lcm-Divides : (a b : ℕ) → Divides a (lcm a b) × Divides b (lcm a b)
unfolding lcm
lcm-Divides a b = elim (Bool-cases (gcd a b == 0)) [
  | inl e ↦ rw (lcm, e) ((0, omega arith), (0, omega arith))
  | inr e ↦
      let d = gcd-Divides a b in
      rw (lcm, e)
        (
          (d.1.0, lcm_cofactor (gcd a b) d.0.0 d.1.0 a b (ground arith) d.0.1 d.1.1),
          (a / gcd a b, refl),
        )
]
