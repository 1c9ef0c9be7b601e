-- ===== src/Common/Xor.antt =====
-- The laws of `^` on unsigned words of any width, from its lowest digit.
use Prim.Native.Nat.{ℕ, zero, suc, ◌+◌, ◌*◌, ◌/◌, ◌%◌, ◌≤◌, ◌<◌, bit_xor, bit_xor-bitwise}
use libsg.Common.Digits.{xor_step}
use mathlib.Core.Path.{◌≡◌, refl, ap, ap₂, sym, ◌∙◌}
use native.Mathlib.Omega.{arith}

infixl 55 ◌⊕◌
abbrev pub ◌⊕◌ : ℕ → ℕ → ℕ
a ⊕ b = bit_xor a b

pub zero-xor : (b : ℕ) → 0 ⊕ b ≡ b
zero-xor b = bit_xor-bitwise 0 b

pub xor-half : (a b : ℕ) → (a ⊕ b) / 2 ≡ (a / 2) ⊕ (b / 2)
xor-half a b = omega (arith, xor_step a b)

pub xor-odd : (a b : ℕ) → (a ⊕ b) % 2 ≡ (a % 2 + b % 2) % 2
xor-odd a b = omega (arith, xor_step a b)

-- Two numbers with the same digits are equal.
same_halves : (x y : ℕ) → x / 2 ≡ y / 2 → x % 2 ≡ y % 2 → x ≡ y
same_halves x y p q = omega arith

xor-zero_fuel : (n a : ℕ) → a ≤ n → a ⊕ 0 ≡ a
xor-zero_fuel n zero h = zero-xor 0
xor-zero_fuel zero (suc a) h = absurd (omega arith)
xor-zero_fuel (suc n) (suc a) h =
    omega (arith, xor_step (suc a) 0, xor-zero_fuel n (suc a / 2) (omega arith))

pub xor-zero : (a : ℕ) → a ⊕ 0 ≡ a
xor-zero a = xor-zero_fuel a a (omega arith)

xor_self_fuel : (n a : ℕ) → a ≤ n → a ⊕ a ≡ 0
xor_self_fuel n zero h = zero-xor 0
xor_self_fuel zero (suc a) h = absurd (omega arith)
xor_self_fuel (suc n) (suc a) h =
    omega (arith, xor_step (suc a) (suc a), xor_self_fuel n (suc a / 2) (omega arith))

pub xor_self : (a : ℕ) → a ⊕ a ≡ 0
xor_self a = xor_self_fuel a a (omega arith)

xor-comm_fuel : (n a b : ℕ) → a ≤ n → a ⊕ b ≡ b ⊕ a
xor-comm_fuel n zero b h = zero-xor b ∙ sym (xor-zero b)
xor-comm_fuel zero (suc a) b h = absurd (omega arith)
xor-comm_fuel (suc n) (suc a) b h = omega (
  arith,
  xor_step (suc a) b,
  xor_step b (suc a),
  xor-comm_fuel n (suc a / 2) (b / 2) (omega arith),
)

pub xor_comm : (a b : ℕ) → a ⊕ b ≡ b ⊕ a
xor_comm a b = xor-comm_fuel a a b (omega arith)

xor-assoc_fuel : (n a b c : ℕ) → a ≤ n → a ⊕ b ⊕ c ≡ a ⊕ (b ⊕ c)
xor-assoc_fuel n zero b c h = ap (λ (x : ℕ). x ⊕ c) (zero-xor b) ∙ sym (zero-xor (b ⊕ c))
xor-assoc_fuel zero (suc a) b c h = absurd (omega arith)
xor-assoc_fuel (suc n) (suc a) b c h =
    let l = ap (λ (x : ℕ). x ⊕ (c / 2)) (xor-half (suc a) b) in
    let r = ap (λ (x : ℕ). (suc a / 2) ⊕ x) (xor-half b c) in
    same_halves (suc a ⊕ b ⊕ c) (suc a ⊕ (b ⊕ c))
      (xor-half (suc a ⊕ b) c
        ∙ l
        ∙ xor-assoc_fuel n (suc a / 2) (b / 2) (c / 2) (omega arith)
        ∙ sym r
        ∙ sym (xor-half (suc a) (b ⊕ c)))
      (omega
        (arith, xor-odd (suc a ⊕ b) c, xor-odd (suc a) b, xor-odd (suc a) (b ⊕ c), xor-odd b c))

pub xor_assoc : (a b c : ℕ) → a ⊕ b ⊕ c ≡ a ⊕ (b ⊕ c)
xor_assoc a b c = xor-assoc_fuel a a b c (omega arith)

-- Four terms in another grouping.
pub xor_swap : (a b c d : ℕ) → (a ⊕ b) ⊕ (c ⊕ d) ≡ (a ⊕ c) ⊕ (b ⊕ d)
xor_swap a b c d =
    xor_assoc a b (c ⊕ d)
    ∙ ap (λ (x : ℕ). a ⊕ x)
        (sym (xor_assoc b c d) ∙ ap (λ (x : ℕ). x ⊕ d) (xor_comm b c) ∙ xor_assoc c b d)
    ∙ sym (xor_assoc a c (b ⊕ d))

-- the low `k` digits, and the others
abbrev low : ℕ → ℕ → ℕ
low zero a = 0
low (suc k) a = low k (a / 2) * 2 + a % 2

abbrev high : ℕ → ℕ → ℕ
high zero a = a
high (suc k) a = high k (a / 2)

xor-low : (k a b : ℕ) → low k (a ⊕ b) ≡ low k a ⊕ low k b
xor-low zero a b = sym (zero-xor 0)
xor-low (suc k) a b =
    let h = ap (low k) (xor-half a b) ∙ xor-low k (a / 2) (b / 2) in
    let p : (low (suc k) a) / 2 ≡ low k (a / 2) = omega arith in
    let q : (low (suc k) b) / 2 ≡ low k (b / 2) = omega arith in
    let e = ap₂ (λ (x y : ℕ). x ⊕ y) p q in
    omega (arith, h, e, xor-odd a b, xor_step (low (suc k) a) (low (suc k) b))

xor-high : (k a b : ℕ) → high k (a ⊕ b) ≡ high k a ⊕ high k b
xor-high zero a b = refl
xor-high (suc k) a b = ap (high k) (xor-half a b) ∙ xor-high k (a / 2) (b / 2)

low-mod : (a : ℕ) → low 8 a ≡ a % 256
low-mod a = omega arith

high-div : (a : ℕ) → high 8 a ≡ a / 256
high-div a = omega arith

pub xor-mod : (a b : ℕ) → (a ⊕ b) % 256 ≡ (a % 256) ⊕ (b % 256)
xor-mod a b =
    sym (low-mod (a ⊕ b)) ∙ xor-low 8 a b ∙ ap₂ (λ (x y : ℕ). x ⊕ y) (low-mod a) (low-mod b)

pub xor-div : (a b : ℕ) → (a ⊕ b) / 256 ≡ (a / 256) ⊕ (b / 256)
xor-div a b =
    sym (high-div (a ⊕ b)) ∙ xor-high 8 a b ∙ ap₂ (λ (x y : ℕ). x ⊕ y) (high-div a) (high-div b)

-- Low digits and others that do not meet.
pub xor-fields : (l h : ℕ) → l < 256 → l ⊕ (256 * h) ≡ l + 256 * h
xor-fields l h p =
    let a = xor-mod l (256 * h) in
    let b = xor-div l (256 * h) in
    let c : (l % 256) ⊕ (256 * h % 256) ≡ l =
      ap₂ (λ (x y : ℕ). x ⊕ y) (omega arith) (omega arith) ∙ xor-zero l in
    let d : (l / 256) ⊕ (256 * h / 256) ≡ h =
      ap₂ (λ (x y : ℕ). x ⊕ y) (omega arith) (omega arith) ∙ zero-xor h in
    omega (arith, a, b, c, d)
