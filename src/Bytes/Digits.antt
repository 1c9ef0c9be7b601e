-- ===== src/Bytes/Digits.antt =====
-- Numbers and their digits, in either order.
use mathlib.Core.List.{reverse, reverse_aux, reverse-reverse}
use libsg.Common.{
  ℕ, ◌^◌, zero, suc, ◌+◌, ◌*◌, ◌/◌, ◌%◌, ◌≡◌, ◌<◌, refl, sym, ap, ap₂, ◌∙◌, List, [], ◌∷◌, length,
  arith,
}
use libsg.Bytes.{Endian, digits, number, ordered, object_bytes, object_value}

-- x is below 256 ^ w
abbrev pub Fits : ℕ → ℕ → Type 0
Fits zero x = x ≡ 0
Fits (suc w) x = Fits w (x / 256)

pub lt→Fits : (w x : ℕ) → x < 256 ^ w → Fits w x
lt→Fits zero x h = omega (arith, h)
lt→Fits (suc w) x h = lt→Fits w (x / 256) (omega (arith, h))

abbrev pub AreBytes : List ℕ → Type 0
AreBytes [] = Unit
AreBytes (b ∷ bs) = (b < 256) × AreBytes bs

pub number-digits : (w x : ℕ) → Fits w x → number (digits w x) ≡ x
unfolding number digits
number-digits zero x h = sym h
number-digits (suc w) x h = omega (arith, number-digits w (x / 256) h)

pub digits-number : (bs : List ℕ) → AreBytes bs → digits (length bs) (number bs) ≡ bs
unfolding number digits
digits-number [] h = refl
digits-number (b ∷ bs) (p, h) =
    let low : (b + 256 * number bs) % 256 ≡ b = omega arith in
    let high : (b + 256 * number bs) / 256 ≡ number bs = omega arith in
    ap₂ ◌∷◌ low (ap (digits (length bs)) high ∙ digits-number bs h)

pub length-digits : (w x : ℕ) → length (digits w x) ≡ w
unfolding digits
length-digits zero x = refl
length-digits (suc w) x = omega (arith, length-digits w (x / 256))

digits-AreBytes : (w x : ℕ) → AreBytes (digits w x)
unfolding digits
digits-AreBytes zero x = tt
digits-AreBytes (suc w) x = (omega arith, digits-AreBytes w (x / 256))

reverse_aux-AreBytes : (xs ys : List ℕ) → AreBytes xs → AreBytes ys → AreBytes (reverse_aux xs ys)
reverse_aux-AreBytes [] ys h k = k
reverse_aux-AreBytes (x ∷ xs) ys (p, h) k = reverse_aux-AreBytes xs (x ∷ ys) h (p, k)

pub reverse-AreBytes : (xs : List ℕ) → AreBytes xs → AreBytes (reverse xs)
reverse-AreBytes xs h = reverse_aux-AreBytes xs [] h tt

length-reverse_aux : (xs ys : List ℕ) → length (reverse_aux xs ys) ≡ length xs + length ys
length-reverse_aux [] ys = omega arith
length-reverse_aux (x ∷ xs) ys = omega (arith, length-reverse_aux xs (x ∷ ys))

pub length-reverse : (xs : List ℕ) → length (reverse xs) ≡ length xs
length-reverse xs = omega (arith, length-reverse_aux xs [])

pub ordered-ordered : (e : Endian) (bs : List ℕ) → ordered e (ordered e bs) ≡ bs
ordered-ordered Endian.little bs = refl
ordered-ordered Endian.big bs = reverse-reverse bs

pub length-ordered : (e : Endian) (bs : List ℕ) → length (ordered e bs) ≡ length bs
length-ordered Endian.little bs = refl
length-ordered Endian.big bs = length-reverse bs

ordered-AreBytes : (e : Endian) (bs : List ℕ) → AreBytes bs → AreBytes (ordered e bs)
ordered-AreBytes Endian.little bs h = h
ordered-AreBytes Endian.big bs h = reverse-AreBytes bs h

pub object_bytes-AreBytes : (e : Endian) (w x : ℕ) → AreBytes (object_bytes e w x)
object_bytes-AreBytes e w x = ordered-AreBytes e (digits w x) (digits-AreBytes w x)

pub length-object_bytes : (e : Endian) (w x : ℕ) → length (object_bytes e w x) ≡ w
length-object_bytes e w x = length-ordered e (digits w x) ∙ length-digits w x

-- `std::bit_cast` there and back
pub object_value-object_bytes :
    (e : Endian) (w x : ℕ) → Fits w x → object_value e (object_bytes e w x) ≡ x
object_value-object_bytes e w x h = ap number (ordered-ordered e (digits w x)) ∙ number-digits w x h

pub object_bytes-object_value :
    (e : Endian) (w : ℕ) (bs : List ℕ)
    → AreBytes bs
    → length bs ≡ w
    → object_bytes e w (object_value e bs) ≡ bs
object_bytes-object_value e w bs h l =
    let n : w ≡ length (ordered e bs) = sym (length-ordered e bs ∙ l) in
    let back = digits-number (ordered e bs) (ordered-AreBytes e bs h) in
    ap (λ k. ordered e (digits k (number (ordered e bs)))) n
    ∙ ap (ordered e) back
    ∙ ordered-ordered e bs
