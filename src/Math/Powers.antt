-- ===== src/Math/Powers.antt =====
-- common/include/sg/math.h: what the two helpers return.
use Prim.Native.Nat.{bit_and, bit_and-bitwise}
use libsg.Common.{
  ℕ, zero, suc, ◌+◌, ◌-◌, ◌*◌, ◌/◌, ◌%◌, ◌^◌, ◌<◌, ◌≤◌, ◌≡◌, ◌⊎◌, inl, inr, ℕ_discrete, refl, ap,
  subst, sym, ◌∙◌, arith,
}
use libsg.Common.Digits.{and_step}
use libsg.Math.{Unsigned, digits, exact_factor_of_two, largest_power_of_two, smear}
use libsg.Math.Smearing.{smeared, smear-Smears}
use native.Mathlib.Nat.{two-pow-succ, mul_assoc, mod-eq_of_lt}

-- A number and what is left of the word have no digit in common.
and-complement : (w n : ℕ) → n < 2 ^ w → bit_and n (2 ^ w - 1 - n) ≡ 0
and-complement zero n h =
    let e : n ≡ 0 = omega (arith, h) in ap (λ x. bit_and x (2 ^ 0 - 1 - x)) e ∙ bit_and-bitwise 0 0
and-complement (suc w) n h =
    let half : (2 ^ suc w - 1 - n) / 2 ≡ 2 ^ w - 1 - n / 2 = omega (arith, h, two-pow-succ w) in
    let odd : (2 ^ suc w - 1 - n) % 2 + n % 2 ≡ 1 = omega (arith, h, two-pow-succ w) in
    let ih =
      ap (bit_and (n / 2)) half ∙ and-complement w (n / 2) (omega (arith, h, two-pow-succ w)) in
    omega (arith, and_step n (2 ^ suc w - 1 - n), ih, odd)

-- `p` is the largest power of two that divides `n`.
abbrev pub IsExactFactor : ℕ → ℕ → Type 0
IsExactFactor n p = (k : ℕ) × (c : ℕ) × (p ≡ 2 ^ k) × (n ≡ p * (2 * c + 1))

-- `p` is the largest power of two up to `n`.
abbrev pub IsLargestPower : ℕ → ℕ → Type 0
IsLargestPower n p = (k : ℕ) × (p ≡ 2 ^ k) × (p ≤ n) × (n < 2 * p)

and-IsExactFactor : (w n : ℕ) → n < 2 ^ w → 0 < n → IsExactFactor n (bit_and n (2 ^ w - n))
and-IsExactFactor zero n h p = absurd (omega (arith, h, p))
and-IsExactFactor (suc w) n h p =
    let up = two-pow-succ w in
    let step = and_step n (2 ^ suc w - n) in
    elim (ℕ_discrete (n % 2) 0) [
      | yes e ↦
          let half : (2 ^ suc w - n) / 2 ≡ 2 ^ w - n / 2 = omega (arith, h, up, e) in
          let (k, c, a, b) =
            and-IsExactFactor w (n / 2) (omega (arith, h, up)) (omega (arith, e, p)) in
          let twice = ap (bit_and (n / 2)) half in
          let both : bit_and n (2 ^ suc w - n) ≡ 2 * bit_and (n / 2) (2 ^ w - n / 2) =
            omega (arith, step, twice, e) in
          let odd = 2 * c + 1 in
          let product =
            ap (λ x. x * odd) both ∙ mul_assoc 2 (bit_and (n / 2) (2 ^ w - n / 2)) odd in
          (suc k, c, omega (arith, both, a, two-pow-succ k), omega (arith, product, b, e))
      | no ne ↦
          let half : (2 ^ suc w - n) / 2 ≡ 2 ^ w - 1 - n / 2 = omega (arith, h, up, ne) in
          let none = ap (bit_and (n / 2)) half ∙ and-complement w (n / 2) (omega (arith, h, up)) in
          let one : bit_and n (2 ^ suc w - n) ≡ 1 = omega (arith, step, none, ne, h, up) in
          (0, n / 2, one, omega (arith, ap (λ x. x * (2 * (n / 2) + 1)) one, ne))
    ]

negate : (m n : ℕ) → 0 < n → n < m → (m - 1 - n + 1) % m ≡ m - n
negate m n p h =
    let e : m - 1 - n + 1 ≡ m - n = omega arith in
    ap (λ x. x % m) e ∙ mod-eq_of_lt {n = m - n} {m = m} (omega arith)

exact_factor_of_two_lem :
    (t : Unsigned) (n : ℕ) → n < 2 ^ digits t → 0 < n → IsExactFactor n (exact_factor_of_two t n)
unfolding exact_factor_of_two
exact_factor_of_two_lem t n h p =
    subst (λ x. IsExactFactor n (bit_and n x)) (sym (negate (2 ^ digits t) n p h))
      (and-IsExactFactor (digits t) n h p)

largest_power_of_two_lem :
    (t : Unsigned) (n : ℕ) → n < 2 ^ digits t → 0 < n → IsLargestPower n (largest_power_of_two t n)
unfolding largest_power_of_two
largest_power_of_two_lem t n h p =
    let x = smear (digits t) t 1 n in
    let (k, e, a, b) = smeared (smear-Smears t) n n (omega arith) h p in
    let top : x - x / 2 ≡ 2 ^ k = omega (arith, e) in
    (k, top, omega (arith, top, a), omega (arith, top, b))

both-zero : (t : Unsigned) → (exact_factor_of_two t 0 ≡ 0) × (largest_power_of_two t 0 ≡ 0)
unfolding exact_factor_of_two largest_power_of_two
both-zero t =
    let m = 2 ^ digits t in
    (bit_and-bitwise 0 ((m - 1 - 0 + 1) % m), omega (arith, (smear-Smears t).halves 0))

-- For each unsigned type and each number of it: for 0, `exact_factor_of_two` and
-- `largest_power_of_two` return 0; for any other number, they return the largest power of two that
-- divides the number and the largest that is not above it.
pub powers_of_two :
    (t : Unsigned) (n : ℕ)
    → n < 2 ^ digits t
    → ((n ≡ 0) × (exact_factor_of_two t n ≡ 0) × (largest_power_of_two t n ≡ 0))
      ⊎ (IsExactFactor n (exact_factor_of_two t n) × IsLargestPower n (largest_power_of_two t n))
powers_of_two t zero h = let (a, b) = both-zero t in inl (refl, a, b)
powers_of_two t (suc n) h =
    let p : 0 < suc n = omega arith in
    inr (exact_factor_of_two_lem t (suc n) h p, largest_power_of_two_lem t (suc n) h p)
