-- ===== src/Worker/Etcd/Numbers.antt =====
-- How etcd.py keeps the uses of a container as text: `str(n).encode()` and `int(value or b'0')`.
use agent_rl.Common.{
  ℕ, zero, suc, ◌+◌, ◌-◌, ◌*◌, ◌/◌, ◌%◌, ◌<◌, ◌≡◌, refl, Bool, Option, none, some, [], ◌∷◌, ltb,
  leb, if◌then◌else◌, ◌&&◌, arith,
}
use native.Mathlib.Decide.{dec_lt}
use agent_rl.Worker.Etcd.{Bytes}

abbrev is_digit : ℕ → Bool
is_digit b = leb 48 b && leb b 57

-- The number of the digits read so far and of those that follow; `none` is a ValueError.
unfoldable pub int_from : ℕ → Bytes → Option ℕ
int_from n [] = some n
int_from n (b ∷ text) =
    let rest = int_from (n * 10 + (b - 48)) text in if is_digit b then rest else none

-- `int(value or b'0')`
unfoldable pub int_or_zero : Bytes → Option ℕ
int_or_zero [] = some 0
int_or_zero (b ∷ value) = int_from 0 (b ∷ value)

-- The digits of a number before those that are known, on fuel
unfoldable pub digits : ℕ → ℕ → Bytes → Bytes
digits zero n text = text
digits (suc fuel) n text =
    let rest = digits fuel (n / 10) ((48 + n % 10) ∷ text) in
    if ltb n 10 then (48 + n) ∷ text else rest

unfoldable pub str : ℕ → Bytes
str n = digits (suc n) n []

-- Of any text after the digits of a number, reading goes on from that number.
int_from-digits :
    (fuel n : ℕ) (text : Bytes) → n < fuel → int_from 0 (digits fuel n text) ≡ int_from n text
unfolding int_from digits
int_from-digits zero n text l = absurd (omega arith)
int_from-digits (suc fuel) n text l = elim (dec_lt n 10) [
  | yes small ↦ ground (arith, small)
  | no large ↦
      ground (arith, int_from-digits fuel (n / 10) ((48 + n % 10) ∷ text) (omega (arith, large, l)))
]

int_or_zero-from : (value : Bytes) → int_or_zero value ≡ int_from 0 value
unfolding int_or_zero int_from
int_or_zero-from [] = refl
int_or_zero-from (b ∷ value) = refl

-- A number is read back from its text.
pub int_or_zero-str : (n : ℕ) → int_or_zero (str n) ≡ some n
unfolding str int_from
int_or_zero-str n = rw (int_or_zero-from, int_from-digits (suc n) n [] (omega arith)) refl
