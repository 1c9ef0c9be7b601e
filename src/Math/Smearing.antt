-- ===== src/Math/Smearing.antt =====
-- common/include/sg/math.h: what the loop of `largest_power_of_two` does to the digits.
use Prim.Native.Nat.{bit_or}
use libsg.Common.{
  ℕ, zero, suc, ◌+◌, ◌*◌, ◌/◌, ◌%◌, ◌^◌, ◌<◌, ◌≤◌, max, ◌≡◌, Bool, true, false, ◌||◌, ltb,
  ℕ_discrete, refl, ap, sym, ◌∙◌, arith, if◌then◌else◌,
}
use libsg.Common.Digits.{or_step}
use libsg.Math.{Unsigned, digits, smear}
use native.Mathlib.Nat.{div-div-eq-div-mul, pow-succ', two-pow-succ}

abbrev is_odd : ℕ → Bool
is_odd n = ltb 0 (n % 2)

-- One of the lowest `s` digits is set.
abbrev has : ℕ → ℕ → Bool
has zero n = false
has (suc s) n = is_odd n || has s (n / 2)

-- `s` digits less
abbrev rest : ℕ → ℕ → ℕ
rest zero n = n
rest (suc s) n = rest s (n / 2)

rest-div : (s n : ℕ) → rest s n ≡ n / 2 ^ s
rest-div zero n = omega arith
rest-div (suc s) n =
    rest-div s (n / 2) ∙ div-div-eq-div-mul n 2 (2 ^ s) ∙ ap (λ x. n / x) (sym (pow-succ' 2 s))

has-add : (s t n : ℕ) → has (s + t) n ≡ has s n || has t (rest s n)
has-add zero t n = ap (λ x. has x n) (omega arith)
has-add (suc s) t n =
    let e : suc s + t ≡ suc (s + t) = omega arith in
    ap (λ x. has x n) e ∙ grind (arith, has-add s t (n / 2))

-- A number below 2 ^ s with no digit is 0.
has-all : (s n : ℕ) → n < 2 ^ s → 0 < n → has s n ≡ true
has-all zero n h p = absurd (omega arith)
has-all (suc s) n h p = elim (ℕ_discrete (n / 2) 0) [
  | yes e ↦ ground (arith, e, p)
  | no ne ↦ ground (arith, has-all s (n / 2) (omega (arith, h, two-pow-succ s)) (omega (arith, ne)))
]

-- `g` sets a digit if one of the `s` digits from it on is set.
pub record Smears (s : ℕ) (g : ℕ → ℕ) : Type 0 where
  pub halves : (n : ℕ) → g n / 2 ≡ g (n / 2)
  pub lowest : (n : ℕ) → g n % 2 ≡ (if has s n then 1 else 0)

rest-Smears : {g : ℕ → ℕ} {s : ℕ} → Smears s g → (t n : ℕ) → rest t (g n) ≡ g (rest t n)
rest-Smears h zero n = refl
rest-Smears h (suc t) n = ap (rest t) (h.halves n) ∙ rest-Smears h t (n / 2)

abbrev widen : ℕ → ℕ → ℕ
widen s x = bit_or x (x / 2 ^ s)

or-half : (a b : ℕ) → bit_or a b / 2 ≡ bit_or (a / 2) (b / 2)
or-half a b = omega (arith, or_step a b)

or-odd : (a b : ℕ) → bit_or a b % 2 ≡ max (a % 2) (b % 2)
or-odd a b = omega (arith, or_step a b)

div-swap : (n d : ℕ) → n / d / 2 ≡ n / 2 / d
div-swap n d =
    let e : d * 2 ≡ 2 * d = omega arith in
    div-div-eq-div-mul n d 2 ∙ ap (λ x. n / x) e ∙ sym (div-div-eq-div-mul n 2 d)

widen-half : {g : ℕ → ℕ} (s : ℕ) → Smears s g → (n : ℕ) → widen s (g n) / 2 ≡ widen s (g (n / 2))
widen-half {g} s h n =
    or-half (g n) (g n / 2 ^ s)
    ∙ ap (bit_or (g n / 2)) (div-swap (g n) (2 ^ s))
    ∙ ap (widen s) (h.halves n)

widen-lowest :
    {g : ℕ → ℕ} (s : ℕ)
    → Smears s g
    → (n : ℕ) → widen s (g n) % 2 ≡ (if has (s + s) n then 1 else 0)
widen-lowest {g} s h n =
    let far = sym (rest-div s (g n)) ∙ rest-Smears h s n in
    let low = ap (λ x. x % 2) far ∙ h.lowest (rest s n) in
    or-odd (g n) (g n / 2 ^ s) ∙ ground (arith, h.lowest n, low, has-add s s n)

widen-Smears : {g : ℕ → ℕ} (s : ℕ) → Smears s g → Smears (s + s) (λ n. widen s (g n))
widen-Smears s h = record { halves = widen-half s h; lowest = widen-lowest s h }

id-Smears : Smears 1 (λ n. n)
id-Smears = record { halves = λ n. refl; lowest = λ n. ground arith }

-- the first three turns, for any type
eight-Smears : Smears 8 (λ n. widen 4 (widen 2 (widen 1 n)))
eight-Smears = widen-Smears 4 (widen-Smears 2 (widen-Smears 1 id-Smears))

-- The loop sets every digit that has one set at or above it.
pub smear-Smears : (t : Unsigned) → Smears (digits t) (λ n. smear (digits t) t 1 n)
unfolding smear
smear-Smears Unsigned.uint8 = eight-Smears
smear-Smears Unsigned.uint16 = widen-Smears 8 eight-Smears
smear-Smears Unsigned.uint32 = widen-Smears 16 (widen-Smears 8 eight-Smears)
smear-Smears Unsigned.uint64 = widen-Smears 32 (widen-Smears 16 (widen-Smears 8 eight-Smears))

-- A number below 2 ^ s is filled up to its highest digit.
pub smeared :
    {g : ℕ → ℕ} {s : ℕ}
    → Smears s g
    → (m n : ℕ) → n ≤ m
    → n < 2 ^ s
    → 0 < n
    → (k : ℕ) × (g n + 1 ≡ 2 * 2 ^ k) × (2 ^ k ≤ n) × (n < 2 * 2 ^ k)
smeared h zero n e l p = absurd (omega arith)
smeared {g} {s} h (suc m) n e l p =
    let low : g n % 2 ≡ 1 = ground (arith, h.lowest n, has-all s n l p) in
    elim (ℕ_discrete (n / 2) 0) [
      | yes z ↦
          let none : g (n / 2) ≡ g 0 = ap g z in
          (0, omega (arith, none, h.halves 0, h.halves n, low), omega arith, omega (arith, z))
      | no nz ↦
          let (k, e', a, b) =
            smeared h m (n / 2) (omega (arith, e, p)) (omega (arith, l)) (omega (arith, nz)) in
          let up = two-pow-succ k in
          (
            suc k,
            omega (arith, up, e', h.halves n, low),
            omega (arith, up, a),
            omega (arith, up, b),
          )
    ]
