-- ===== src/Crc/Bytewise.antt =====
-- The definition of the checksum, bit by bit, and a word at a time.
use libsg.Common.{
  ℕ, zero, suc, ◌+◌, ◌*◌, ◌/◌, ◌%◌, ◌^◌, ◌≤◌, ◌<◌, ◌≡◌, refl, sym, ap, ap₂, ◌∙◌, arith, List, [],
  ◌∷◌, ◌++◌, length, take, drop,
}
use libsg.Common.Xor.{◌⊕◌, xor-zero, zero-xor, xor_assoc, xor-div, xor-fields}
use libsg.Crc.{shift_bits, first_table, table, load}
use libsg.Crc.Linear.{shift_bytes, shift_bits-xor, shift_8, shift_8-high}

-- Each byte is put into the low end of the remainder, of which eight bits are then shifted out.
unfoldable pub bytewise : ℕ → List ℕ → ℕ → ℕ
bytewise p [] r = r
bytewise p (b ∷ bs) r = bytewise p bs (shift_bits p 8 (r ⊕ b))

abbrev pub AllBytes : List ℕ → Type 0
AllBytes [] = Unit
AllBytes (b ∷ bs) = (b < 256) × AllBytes bs

pub take-AllBytes : (n : ℕ) (bs : List ℕ) → AllBytes bs → AllBytes (take n bs)
take-AllBytes zero bs h = tt
take-AllBytes (suc n) [] h = tt
take-AllBytes (suc n) (b ∷ bs) h = (h.0, take-AllBytes n bs h.1)

pub drop-AllBytes : (n : ℕ) (bs : List ℕ) → AllBytes bs → AllBytes (drop n bs)
drop-AllBytes zero bs h = h
drop-AllBytes (suc n) [] h = tt
drop-AllBytes (suc n) (b ∷ bs) h = drop-AllBytes n bs h.1

pub bytewise-append :
    (p : ℕ) (xs ys : List ℕ) (r : ℕ) → bytewise p (xs ++ ys) r ≡ bytewise p ys (bytewise p xs r)
unfolding bytewise
bytewise-append p [] ys r = refl
bytewise-append p (x ∷ xs) ys r = bytewise-append p xs ys (shift_bits p 8 (r ⊕ x))

-- The bytes of a word, put in at once.
pub bytewise-load :
    (p : ℕ) (bs : List ℕ) (r : ℕ)
    → AllBytes bs
    → bytewise p bs r ≡ shift_bytes p (length bs) (r ⊕ load bs)
unfolding bytewise load
bytewise-load p [] r h = sym (xor-zero r)
bytewise-load p (b ∷ bs) r h =
    let w = load bs in
    let apart : r ⊕ (b + 256 * w) ≡ (r ⊕ b) ⊕ (256 * w) =
      ap (λ (x : ℕ). r ⊕ x) (sym (xor-fields b w h.0)) ∙ sym (xor_assoc r b (256 * w)) in
    let shifted =
      ap (shift_bits p 8) apart
      ∙ shift_bits-xor p 8 (r ⊕ b) (256 * w)
      ∙ ap (λ (x : ℕ). shift_bits p 8 (r ⊕ b) ⊕ x) (shift_8-high p w) in
    bytewise-load p bs (shift_bits p 8 (r ⊕ b)) h.1 ∙ sym (ap (shift_bytes p (length bs)) shifted)

-- The step of the one-byte routine.
pub byte_step :
    (p b r : ℕ) → b < 256 → (r / 256) ⊕ table p 0 ((r ⊕ b) % 256) ≡ shift_bits p 8 (r ⊕ b)
unfolding table
byte_step p b r h =
    let e : b / 256 ≡ 0 = omega arith in
    let d = xor-div r b ∙ ap (λ (x : ℕ). (r / 256) ⊕ x) e ∙ xor-zero (r / 256) in
    ap (λ (x : ℕ). x ⊕ first_table p ((r ⊕ b) % 256)) (sym d) ∙ sym (shift_8 p (r ⊕ b))

-- `uint32_t`
abbrev pub IsWord : ℕ → Type 0
IsWord r = r < 2 ^ 32

xor-above :
    (a b : ℕ)
    → (a ⊕ b) / 256 / 256 / 256 / 256 ≡ (a / 256 / 256 / 256 / 256) ⊕ (b / 256 / 256 / 256 / 256)
xor-above a b =
    ap (λ (x : ℕ). x / 256 / 256 / 256) (xor-div a b)
    ∙ ap (λ (x : ℕ). x / 256 / 256) (xor-div (a / 256) (b / 256))
    ∙ ap (λ (x : ℕ). x / 256) (xor-div (a / 256 / 256) (b / 256 / 256))
    ∙ xor-div (a / 256 / 256 / 256) (b / 256 / 256 / 256)

pub xor-IsWord : (a b : ℕ) → IsWord a → IsWord b → IsWord (a ⊕ b)
xor-IsWord a b h k =
    let e : a / 256 / 256 / 256 / 256 ≡ 0 = omega arith in
    let f : b / 256 / 256 / 256 / 256 ≡ 0 = omega arith in
    let g = xor-above a b ∙ ap₂ (λ (x y : ℕ). x ⊕ y) e f ∙ zero-xor 0 in omega (arith, g)

pub load-IsWord : (bs : List ℕ) → AllBytes bs → length bs ≤ 4 → IsWord (load bs)
unfolding load
load-IsWord [] h l = omega arith
load-IsWord (a ∷ []) h l = omega arith
load-IsWord (a ∷ b ∷ []) h l = omega arith
load-IsWord (a ∷ b ∷ c ∷ []) h l = omega arith
load-IsWord (a ∷ b ∷ c ∷ d ∷ []) h l = omega arith
load-IsWord (a ∷ b ∷ c ∷ d ∷ e ∷ bs) h l = absurd (omega arith)
