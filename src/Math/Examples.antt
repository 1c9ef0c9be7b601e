-- ===== src/Math/Examples.antt =====
-- The two helpers at concrete numbers.
use libsg.Common.{zero, ◌≡◌, ◌⊎◌, refl, arith}
use libsg.Math.{Unsigned, exact_factor_of_two, largest_power_of_two}
use libsg.Math.Powers.{IsExactFactor, IsLargestPower, powers_of_two}

factor_of_8 : exact_factor_of_two Unsigned.uint8 8 ≡ 8
unfolding exact_factor_of_two
factor_of_8 = refl

power_for_9 : largest_power_of_two Unsigned.uint64 9 ≡ 8
unfolding largest_power_of_two
power_for_9 = refl

powers_of_two_example :
    ((200 ≡ zero)
      × (exact_factor_of_two Unsigned.uint8 200 ≡ 0)
      × (largest_power_of_two Unsigned.uint8 200 ≡ 0))
    ⊎ (IsExactFactor 200 (exact_factor_of_two Unsigned.uint8 200)
        × IsLargestPower 200 (largest_power_of_two Unsigned.uint8 200))
powers_of_two_example = powers_of_two Unsigned.uint8 200 (omega arith)
