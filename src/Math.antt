-- ===== src/Math.antt =====
-- common/include/sg/math.h: the helpers on powers of two, for each unsigned type.
mod Smearing
mod Powers
mod Examples
use Prim.Native.Nat.{bit_and, bit_or}
use libsg.Common.{ℕ, zero, suc, ◌+◌, ◌-◌, ◌*◌, ◌/◌, ◌%◌, ◌^◌, leb, true, false}

-- `T`
pub data Unsigned : Type 0 where
  uint8 uint16 uint32 uint64 : Unsigned

abbrev pub sizeof : Unsigned → ℕ
sizeof uint8 = 1
sizeof uint16 = 2
sizeof uint32 = 4
sizeof uint64 = 8

abbrev pub digits : Unsigned → ℕ
digits t = sizeof t * 8

-- `~number`
abbrev pub complement : Unsigned → ℕ → ℕ
complement t number = 2 ^ digits t - 1 - number

unfoldable pub exact_factor_of_two : Unsigned → ℕ → ℕ
exact_factor_of_two t number = bit_and number ((complement t number + 1) % 2 ^ digits t)

-- The loop from `i` on, for at most `fuel` turns.
unfoldable pub smear : ℕ → Unsigned → ℕ → ℕ → ℕ
smear zero t i number = number
smear (suc fuel) t i number = elim (leb i (sizeof t * 8 / 2)) [
  | true ↦ smear fuel t (i * 2) (bit_or number (number / 2 ^ i))
  | false ↦ number
]

-- `i` doubles, so it has passed half of the digits after as many turns as there are digits.
unfoldable pub largest_power_of_two : Unsigned → ℕ → ℕ
unfolding smear
largest_power_of_two t number = let n = smear (digits t) t 1 number in n - n / 2
