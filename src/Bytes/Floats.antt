-- ===== src/Bytes/Floats.antt =====
-- Floating point numbers in a chosen byte order.
use mathlib.Core.List.{reverse, reverse-append, reverse-reverse}
use libsg.Common.{
  ℕ, zero, suc, ◌≡◌, ◌≤◌, refl, sym, ap, ◌∙◌, some, List, [], ◌∷◌, ◌++◌, length, take, get_elem?,
  get_elem?_of_lt, take-append_self, length-append, arith,
}
use libsg.Bytes.{Endian, ordered, float_to_bytes, to_float, copy_backwards}
use libsg.Bytes.Digits.{length-reverse}

take-suc :
    (n : ℕ) (xs : List ℕ) (b : ℕ)
    → get_elem? xs n ≡ some b
    → take (suc n) xs ≡ take n xs ++ (b ∷ [])
take-suc n [] b h = ground (arith, h)
take-suc zero (x ∷ xs) b h = ground (arith, h)
take-suc (suc n) (x ∷ xs) b h = ap (◌∷◌ x) (take-suc n xs b h)

copy_step :
    (n : ℕ) (xs : List ℕ) (b : ℕ)
    → get_elem? xs n ≡ some b
    → copy_backwards (suc n) xs ≡ b ∷ copy_backwards n xs
unfolding copy_backwards
copy_step n xs b h = ground (arith, h)

-- The loop is a reversal.
pub copy_backwards-reverse :
    (n : ℕ) (xs : List ℕ) → n ≤ length xs → copy_backwards n xs ≡ reverse (take n xs)
unfolding copy_backwards
copy_backwards-reverse zero xs h = refl
copy_backwards-reverse (suc n) xs h =
    let (b, e) = get_elem?_of_lt xs n (omega (arith, h)) in
    copy_step n xs b e
    ∙ ap (◌∷◌ b) (copy_backwards-reverse n xs (omega (arith, h)))
    ∙ sym (reverse-append (take n xs) (b ∷ []))
    ∙ ap reverse (sym (take-suc n xs b e))

written :
    (native dst : Endian) (v : List ℕ)
    → float_to_bytes native (ordered native v) dst ≡ ordered dst v
unfolding float_to_bytes
written Endian.little Endian.little v = refl
written Endian.big Endian.big v = refl
written Endian.little Endian.big v = refl
written Endian.big Endian.little v = reverse-reverse v

backwards :
    (size : ℕ) (bs rest : List ℕ) → length bs ≡ size → copy_backwards size (bs ++ rest) ≡ reverse bs
backwards size bs rest h =
    copy_backwards-reverse size (bs ++ rest) (omega (arith, h, length-append bs rest))
    ∙ ap reverse (take-append_self size bs rest h)

read :
    (native src : Endian) (size : ℕ) (v rest : List ℕ)
    → length v ≡ size
    → to_float native size (ordered src v ++ rest) src ≡ ordered native v
unfolding to_float
read Endian.little Endian.little size v rest h = take-append_self size v rest h
read Endian.big Endian.big size v rest h =
    take-append_self size (reverse v) rest (length-reverse v ∙ h)
read Endian.big Endian.little size v rest h = backwards size v rest h
read Endian.little Endian.big size v rest h =
    backwards size (reverse v) rest (length-reverse v ∙ h) ∙ reverse-reverse v

-- A floating point number whose bytes are `v` from the lowest, which each processor has in its own
-- byte order: what one processor writes with `to_bytes` in any order is read with `to_numeric` on any
-- processor as the same number, also if other bytes follow.
pub float_read_back :
    (writer reader order : Endian) (size : ℕ) (v rest : List ℕ)
    → length v ≡ size
    → to_float reader size (float_to_bytes writer (ordered writer v) order ++ rest) order
      ≡ ordered reader v
float_read_back writer reader order size v rest h =
    ap (λ bs. to_float reader size (bs ++ rest) order) (written writer order v)
    ∙ read reader order size v rest h
