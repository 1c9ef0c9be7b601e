-- ===== src/Crc/Linear.antt =====
-- Shifting bits out is linear, and the tables hold what is shifted out of a byte.
use libsg.Common.{
  ℕ, zero, suc, ◌+◌, ◌*◌, ◌/◌, ◌%◌, ◌≡◌, refl, sym, ap, ap₂, ◌∙◌, arith, ◌==◌, if◌then◌else◌,
}
use libsg.Common.Xor.{
  ◌⊕◌, zero-xor, xor-zero, xor-half, xor-odd, xor_self, xor_comm, xor_swap, xor-fields,
}
use libsg.Crc.{shift_bit, shift_bits, first_table, table}

-- `p` if the number is odd
abbrev part : ℕ → ℕ → ℕ
part p r = if r % 2 == 1 then p else 0

abbrev doubles : ℕ → ℕ → ℕ
doubles zero r = r
doubles (suc n) r = 2 * doubles n r

module _ (p : ℕ) where
  shift_bit-part : (r : ℕ) → shift_bit p r ≡ (r / 2) ⊕ part p r
  unfolding shift_bit
  shift_bit-part r = ground (arith, xor-zero (r / 2))

  part-xor : (a b : ℕ) → part p (a ⊕ b) ≡ part p a ⊕ part p b
  part-xor a b = ground (arith, xor-odd a b, xor_self p, xor-zero p, zero-xor p, zero-xor 0)

  shift_bit-xor : (a b : ℕ) → shift_bit p (a ⊕ b) ≡ shift_bit p a ⊕ shift_bit p b
  shift_bit-xor a b =
      shift_bit-part (a ⊕ b)
      ∙ ap₂ (λ (x y : ℕ). x ⊕ y) (xor-half a b) (part-xor a b)
      ∙ xor_swap (a / 2) (b / 2) (part p a) (part p b)
      ∙ sym (ap₂ (λ (x y : ℕ). x ⊕ y) (shift_bit-part a) (shift_bit-part b))

  pub shift_bits-xor : (n a b : ℕ) → shift_bits p n (a ⊕ b) ≡ shift_bits p n a ⊕ shift_bits p n b
  unfolding shift_bits
  shift_bits-xor zero a b = refl
  shift_bits-xor (suc n) a b =
      ap (shift_bits p n) (shift_bit-xor a b) ∙ shift_bits-xor n (shift_bit p a) (shift_bit p b)

  shift_bit-even : (r : ℕ) → shift_bit p (2 * r) ≡ r
  unfolding shift_bit
  shift_bit-even r = ground arith

  shift_bits-doubles : (n r : ℕ) → shift_bits p n (doubles n r) ≡ r
  unfolding shift_bits
  shift_bits-doubles zero r = refl
  shift_bits-doubles (suc n) r =
      ap (shift_bits p n) (shift_bit-even (doubles n r)) ∙ shift_bits-doubles n r

  pub shift_8-high : (r : ℕ) → shift_bits p 8 (256 * r) ≡ r
  shift_8-high r =
      let e : 256 * r ≡ doubles 8 r = omega arith in ap (shift_bits p 8) e ∙ shift_bits-doubles 8 r

  -- what is shifted out of a word, byte by byte
  pub shift_8 : (r : ℕ) → shift_bits p 8 r ≡ (r / 256) ⊕ first_table p (r % 256)
  unfolding first_table
  shift_8 r =
      let e : r ≡ (r % 256) ⊕ (256 * (r / 256)) =
        omega (arith, xor-fields (r % 256) (r / 256) (omega arith)) in
      ap (shift_bits p 8) e
      ∙ shift_bits-xor 8 (r % 256) (256 * (r / 256))
      ∙ ap (λ (x : ℕ). shift_bits p 8 (r % 256) ⊕ x) (shift_8-high (r / 256))
      ∙ xor_comm (shift_bits p 8 (r % 256)) (r / 256)

-- `n` bytes are shifted out
abbrev pub shift_bytes : ℕ → ℕ → ℕ → ℕ
shift_bytes p zero r = r
shift_bytes p (suc n) r = shift_bytes p n (shift_bits p 8 r)

module _ (p : ℕ) where
  pub shift_bytes-xor :
      (n a b : ℕ) → shift_bytes p n (a ⊕ b) ≡ shift_bytes p n a ⊕ shift_bytes p n b
  shift_bytes-xor zero a b = refl
  shift_bytes-xor (suc n) a b =
      ap (shift_bytes p n) (shift_bits-xor p 8 a b)
      ∙ shift_bytes-xor n (shift_bits p 8 a) (shift_bits p 8 b)

  pub shift_bytes-add : (m n r : ℕ) → shift_bytes p (m + n) r ≡ shift_bytes p n (shift_bytes p m r)
  shift_bytes-add zero n r = let e : 0 + n ≡ n = omega arith in ap (λ (k : ℕ). shift_bytes p k r) e
  shift_bytes-add (suc m) n r =
      let e : suc m + n ≡ suc (m + n) = omega arith in
      ap (λ (k : ℕ). shift_bytes p k r) e ∙ shift_bytes-add m n (shift_bits p 8 r)

  pub shift_bytes-last : (n r : ℕ) → shift_bytes p (suc n) r ≡ shift_bits p 8 (shift_bytes p n r)
  shift_bytes-last zero r = refl
  shift_bytes-last (suc n) r = shift_bytes-last n (shift_bits p 8 r)

  -- The `k`-th table holds what `k + 1` bytes shifted out leave of a byte.
  pub table-shift : (k i : ℕ) → table p k i ≡ shift_bytes p (suc k) i
  unfolding table first_table
  table-shift zero i = refl
  table-shift (suc k) i =
      let r = table p k i in
      sym (shift_8 p r) ∙ ap (shift_bits p 8) (table-shift k i) ∙ sym (shift_bytes-last (suc k) i)

  pub shift_bytes-zero : (n : ℕ) → shift_bytes p n 0 ≡ 0
  shift_bytes-zero zero = refl
  shift_bytes-zero (suc n) = ap (shift_bytes p n) (shift_8-high p 0) ∙ shift_bytes-zero n

  -- the lowest byte and the others
  pub shift_bytes-split :
      (n r : ℕ) → shift_bytes p (suc n) r ≡ shift_bytes p n (r / 256) ⊕ table p n (r % 256)
  unfolding first_table
  shift_bytes-split n r =
      ap (shift_bytes p n) (shift_8 p r)
      ∙ shift_bytes-xor n (r / 256) (first_table p (r % 256))
      ∙ ap (λ (x : ℕ). shift_bytes p n (r / 256) ⊕ x) (sym (table-shift n (r % 256)))
