-- ===== src/Bytes/Order.antt =====
-- The byte order of the processor does not show.
use mathlib.Core.List.{reverse, reverse-reverse}
use libsg.Common.{
  sym, true, drop, if◌then◌else◌, ℕ, ◌≡◌, refl, ap, ◌∙◌, List, ◌++◌, take, take-append_self,
}
use libsg.Bytes.{
  same, to_object_and_advance_ptr, to_numeric_and_advance_ptr, Endian, object_bytes, object_value,
  byteswap, to_bytes, to_object, to_numeric,
}
use libsg.Bytes.Digits.{
  Fits, object_bytes-AreBytes, length-object_bytes, reverse-AreBytes, length-reverse,
  object_value-object_bytes, object_bytes-object_value,
}

object_bytes-byteswap :
    (native : Endian) (w x : ℕ)
    → object_bytes native w (byteswap native w x) ≡ reverse (object_bytes native w x)
unfolding byteswap
object_bytes-byteswap native w x =
    let bs = object_bytes native w x in
    object_bytes-object_value native w (reverse bs)
      (reverse-AreBytes bs (object_bytes-AreBytes native w x))
      (length-reverse bs ∙ length-object_bytes native w x)

-- What is written does not depend on the processor.
pub to_bytes-object_bytes :
    (native : Endian) (w x : ℕ) (dst : Endian) → to_bytes native w x dst ≡ object_bytes dst w x
unfolding to_bytes
to_bytes-object_bytes Endian.little w x Endian.little = refl
to_bytes-object_bytes Endian.big w x Endian.big = refl
to_bytes-object_bytes Endian.little w x Endian.big = object_bytes-byteswap Endian.little w x
to_bytes-object_bytes Endian.big w x Endian.little =
    object_bytes-byteswap Endian.big w x ∙ reverse-reverse (object_bytes Endian.little w x)

-- A word read in the wrong order, and swapped.
byteswap-object_value :
    (native src : Endian) (w x : ℕ)
    → Fits w x
    → reverse (object_bytes src w x) ≡ object_bytes native w x
    → byteswap native w (object_value native (object_bytes src w x)) ≡ x
unfolding byteswap
byteswap-object_value native src w x h opposite =
    let back =
      object_bytes-object_value native w (object_bytes src w x) (object_bytes-AreBytes src w x)
        (length-object_bytes src w x) in
    ap (λ bs. object_value native (reverse bs)) back
    ∙ ap (object_value native) opposite
    ∙ object_value-object_bytes native w x h

pub take-object_bytes :
    (src : Endian) (w x : ℕ) (rest : List ℕ)
    → take w (object_bytes src w x ++ rest) ≡ object_bytes src w x
take-object_bytes src w x rest =
    take-append_self w (object_bytes src w x) rest (length-object_bytes src w x)

-- Nor does what is read.
pub to_numeric-object_bytes :
    (native : Endian) (w x : ℕ) (rest : List ℕ) (src : Endian)
    → Fits w x
    → to_numeric native w (object_bytes src w x ++ rest) src ≡ x
unfolding to_numeric to_object
to_numeric-object_bytes Endian.little w x rest Endian.little h =
    ap (object_value Endian.little) (take-object_bytes Endian.little w x rest)
    ∙ object_value-object_bytes Endian.little w x h
to_numeric-object_bytes Endian.big w x rest Endian.big h =
    ap (object_value Endian.big) (take-object_bytes Endian.big w x rest)
    ∙ object_value-object_bytes Endian.big w x h
to_numeric-object_bytes Endian.little w x rest Endian.big h =
    ap (λ bs. byteswap Endian.little w (object_value Endian.little bs))
      (take-object_bytes Endian.big w x rest)
    ∙ byteswap-object_value Endian.little Endian.big w x h
        (reverse-reverse (object_bytes Endian.little w x))
to_numeric-object_bytes Endian.big w x rest Endian.little h =
    ap (λ bs. byteswap Endian.big w (object_value Endian.big bs))
      (take-object_bytes Endian.little w x rest)
    ∙ byteswap-object_value Endian.big Endian.little w x h refl

same_self : (native : Endian) → same native native ≡ true
same_self Endian.little = refl
same_self Endian.big = refl

-- An object is read as a number in the order of the processor.
pub to_object_and_advance_ptr-to_numeric :
    (native : Endian) (w : ℕ) (buff : List ℕ)
    → to_object_and_advance_ptr native w buff ≡ to_numeric_and_advance_ptr native w buff native
unfolding to_object_and_advance_ptr to_numeric_and_advance_ptr to_numeric
to_object_and_advance_ptr-to_numeric native w buff =
    let v = to_object native w buff in
    ap (λ b. (if b then v else byteswap native w v, drop w buff)) (sym (same_self native))
