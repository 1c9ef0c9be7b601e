-- ===== src/Crc/Tabular.antt =====
-- The routines by tables compute what the definition says.
use libsg.Common.{
  ℕ, zero, suc, ◌/◌, ◌≤◌, ◌<◌, ◌≡◌, inl, inr, subst, refl, sym, ap, ◌∙◌, arith, List, [], ◌∷◌, ◌++◌,
  length, take, drop, length-take, length-drop, take-append-drop, leb, leb→le, Bool-cases,
}
use libsg.Common.Xor.{◌⊕◌}
use libsg.Crc.{
  shift_bit, shift_bits, block_2, block_4, block_8, block_16, blocks, complement, crc32, crc32c,
  crc32c_tabular, crc32_tabular_1_byte, crc32_tabular_2_bytes, crc32_tabular_4_bytes,
  crc32_tabular_8_bytes, crc32_tabular_16_bytes,
}
use libsg.Crc.Bytewise.{
  bytewise, AllBytes, take-AllBytes, drop-AllBytes, bytewise-append, byte_step, IsWord, xor-IsWord,
}
use libsg.Crc.Slices.{block_2-bytewise, block_4-bytewise, block_8-bytewise, block_16-bytewise}

shift_bit-IsWord : (p r : ℕ) → IsWord p → IsWord r → IsWord (shift_bit p r)
unfolding shift_bit
shift_bit-IsWord p r h k = ground (arith, xor-IsWord (r / 2) p (omega arith) h, k)

shift_bits-IsWord : (p n r : ℕ) → IsWord p → IsWord r → IsWord (shift_bits p n r)
unfolding shift_bits
shift_bits-IsWord p zero r h k = k
shift_bits-IsWord p (suc n) r h k =
    shift_bits-IsWord p n (shift_bit p r) h (shift_bit-IsWord p r h k)

pub bytewise-IsWord :
    (p : ℕ) (bs : List ℕ) (r : ℕ) → AllBytes bs → IsWord p → IsWord r → IsWord (bytewise p bs r)
unfolding bytewise
bytewise-IsWord p [] r b h k = k
bytewise-IsWord p (x ∷ bs) r b h k =
    bytewise-IsWord p bs (shift_bits p 8 (r ⊕ x)) b.1 h
      (shift_bits-IsWord p 8 (r ⊕ x) h (xor-IsWord r x k (omega (arith, b.0))))

-- A routine is right on all bytes and remainders.
abbrev Right : ℕ → (List ℕ → ℕ → ℕ) → Type 0
Right p f = (bs : List ℕ) (r : ℕ) → AllBytes bs → IsWord r → f bs r ≡ bytewise p bs r

-- A block is right on `n` bytes.
abbrev RightBlock : ℕ → ℕ → (List ℕ → ℕ → ℕ) → Type 0
RightBlock p n f =
    (bs : List ℕ) (r : ℕ) → AllBytes bs → length bs ≡ n → IsWord r → f bs r ≡ bytewise p bs r

module _ (p : ℕ) (word : IsWord p) where
  blocks-Right :
      (n : ℕ) (block rest : List ℕ → ℕ → ℕ)
      → RightBlock p n block
      → Right p rest
      → (fuel : ℕ) → Right p (blocks fuel n block rest)
  unfolding blocks
  blocks-Right n block rest g h zero bs r b w = h bs r b w
  blocks-Right n block rest g h (suc fuel) bs r b w = elim (Bool-cases (leb n (length bs))) [
    | inl e ↦
        let long = leb→le n (length bs) e in
        let full : length (take n bs) ≡ n = omega (arith, length-take n bs, long) in
        let s = g (take n bs) r (take-AllBytes n bs b) full w in
        let again =
          blocks-Right n block rest g h fuel (drop n bs) (block (take n bs) r)
            (drop-AllBytes n bs b)
            (subst IsWord (sym s)
              (bytewise-IsWord p (take n bs) r (take-AllBytes n bs b) word w)) in
        rw e (
          again
          ∙ ap (bytewise p (drop n bs)) s
          ∙ sym (bytewise-append p (take n bs) (drop n bs) r)
          ∙ ap (λ (xs : List ℕ). bytewise p xs r) (take-append-drop n bs))
    | inr e ↦ rw e (h bs r b w)
  ]

  one_byte-Right : Right p (crc32_tabular_1_byte p)
  unfolding crc32_tabular_1_byte bytewise
  one_byte-Right [] r b w = refl
  one_byte-Right (x ∷ bs) r b w =
      let s = byte_step p x r b.0 in
      let v = shift_bits-IsWord p 8 (r ⊕ x) word (xor-IsWord r x w (omega (arith, b.0))) in
      ap (crc32_tabular_1_byte p bs) s ∙ one_byte-Right bs (shift_bits p 8 (r ⊕ x)) b.1 v

  two_bytes-Right : Right p (crc32_tabular_2_bytes p)
  unfolding crc32_tabular_2_bytes
  two_bytes-Right bs =
      blocks-Right 2 (block_2 p) (crc32_tabular_1_byte p) (λ d r b l w. block_2-bytewise p d r b l)
        one_byte-Right (length bs) bs

  four_bytes-Right : Right p (crc32_tabular_4_bytes p)
  unfolding crc32_tabular_4_bytes
  four_bytes-Right bs =
      blocks-Right 4 (block_4 p) (crc32_tabular_2_bytes p) (block_4-bytewise p) two_bytes-Right
        (length bs) bs

  eight_bytes-Right : Right p (crc32_tabular_8_bytes p)
  unfolding crc32_tabular_8_bytes
  eight_bytes-Right bs =
      blocks-Right 8 (block_8 p) (crc32_tabular_4_bytes p) (block_8-bytewise p) four_bytes-Right
        (length bs) bs

  sixteen_bytes-Right : Right p (crc32_tabular_16_bytes p)
  unfolding crc32_tabular_16_bytes
  sixteen_bytes-Right bs =
      blocks-Right 16 (block_16 p) (crc32_tabular_8_bytes p) (block_16-bytewise p) eight_bytes-Right
        (length bs) bs

  pub tabular-Right :
      (bs : List ℕ) (r : ℕ) → AllBytes bs → IsWord r → crc32c_tabular p bs r ≡ bytewise p bs r
  unfolding crc32c_tabular
  tabular-Right bs r b w = ground (
    arith,
    sixteen_bytes-Right bs r b w,
    eight_bytes-Right bs r b w,
    four_bytes-Right bs r b w,
    two_bytes-Right bs r b w,
    one_byte-Right bs r b w,
  )

-- Fuel for each byte is enough: more of it changes nothing.
blocks_fuel :
    (n : ℕ) (block rest : List ℕ → ℕ → ℕ) (k m : ℕ) (bs : List ℕ) (r : ℕ)
    → 0 < n
    → length bs ≤ k
    → length bs ≤ m
    → blocks k n block rest bs r ≡ blocks m n block rest bs r
unfolding blocks
blocks_fuel n block rest zero zero bs r o h g = refl
blocks_fuel n block rest zero (suc m) bs r o h g = ground (arith, o, h)
blocks_fuel n block rest (suc k) zero bs r o h g = ground (arith, o, g)
blocks_fuel n block rest (suc k) (suc m) bs r o h g =
    let shorter = length-drop n bs in
    elim (Bool-cases (leb n (length bs))) [
      | inl e ↦
          let more = leb→le n (length bs) e in
          rw e (
            blocks_fuel n block rest k m (drop n bs) (block (take n bs) r) o
              (omega (arith, shorter, more)) (omega (arith, shorter, more)))
      | inr e ↦ rw e refl
    ]

-- The polynomials of CRC-32C and CRC-32, with the highest term in the lowest bit.
abbrev pub castagnoli : ℕ
castagnoli = 0x82f63b78

abbrev pub iso_hdlc : ℕ
iso_hdlc = 0xedb88320

complemented : ℕ → List ℕ → ℕ → ℕ
complemented p bs r = complement (bytewise p bs (complement r))

AllBytes-left : (xs ys : List ℕ) → AllBytes (xs ++ ys) → AllBytes xs
AllBytes-left [] ys h = tt
AllBytes-left (x ∷ xs) ys h = (h.0, AllBytes-left xs ys h.1)

AllBytes-right : (xs ys : List ℕ) → AllBytes (xs ++ ys) → AllBytes ys
AllBytes-right [] ys h = h
AllBytes-right (x ∷ xs) ys h = AllBytes-right xs ys h.1

complement_twice : (r : ℕ) → IsWord r → complement (complement r) ≡ r
complement_twice r h = omega arith

complemented-append :
    (p : ℕ) (xs ys : List ℕ) (r : ℕ)
    → IsWord p
    → AllBytes xs
    → complemented p (xs ++ ys) r ≡ complemented p ys (complemented p xs r)
unfolding complemented
complemented-append p xs ys r h b =
    let c = complement r in
    let w = bytewise-IsWord p xs c b h (omega arith) in
    ap complement
      (bytewise-append p xs ys c ∙ ap (bytewise p ys) (sym (complement_twice (bytewise p xs c) w)))

crc32c-complemented :
    (bs : List ℕ) (r : ℕ) → AllBytes bs → crc32c bs r ≡ complemented castagnoli bs r
unfolding crc32c complemented
crc32c-complemented bs r b =
    ap complement (tabular-Right castagnoli (omega arith) bs (complement r) b (omega arith))

crc32-complemented : (bs : List ℕ) (r : ℕ) → AllBytes bs → crc32 bs r ≡ complemented iso_hdlc bs r
unfolding crc32 complemented
crc32-complemented bs r b =
    ap complement (tabular-Right iso_hdlc (omega arith) bs (complement r) b (omega arith))

-- For all bytes and every remainder, both checksums are the bit-by-bit ones: the complement of the
-- remainder is taken, each byte is put into its low end and eight bits are shifted out, and the
-- complement of the result is taken.
pub crc-bytewise :
    (bs : List ℕ) (r : ℕ)
    → AllBytes bs
    → (crc32c bs r ≡ complement (bytewise castagnoli bs (complement r)))
      × (crc32 bs r ≡ complement (bytewise iso_hdlc bs (complement r)))
unfolding complemented
crc-bytewise bs r b = (crc32c-complemented bs r b, crc32-complemented bs r b)

-- A checksum can be continued: that of two runs of bytes is that of the second run, with the
-- checksum of the first as the remainder, however long the runs are.
pub crc-append :
    (xs ys : List ℕ) (r : ℕ)
    → AllBytes (xs ++ ys)
    → (crc32c (xs ++ ys) r ≡ crc32c ys (crc32c xs r)) × (crc32 (xs ++ ys) r ≡ crc32 ys (crc32 xs r))
crc-append xs ys r b =
    let bx = AllBytes-left xs ys b in
    let by = AllBytes-right xs ys b in
    (
      crc32c-complemented (xs ++ ys) r b
          ∙ complemented-append castagnoli xs ys r (omega arith) bx
          ∙ ap (complemented castagnoli ys) (sym (crc32c-complemented xs r bx))
          ∙ sym (crc32c-complemented ys (crc32c xs r) by),
      crc32-complemented (xs ++ ys) r b
          ∙ complemented-append iso_hdlc xs ys r (omega arith) bx
          ∙ ap (complemented iso_hdlc ys) (sym (crc32-complemented xs r bx))
          ∙ sym (crc32-complemented ys (crc32 xs r) by),
    )
