-- ===== src/Bytes.antt =====
-- common/include/sg/bytes.h: objects to bytes and back, in a chosen byte order. An integer of w bytes
-- is its unsigned value, a floating point number the bytes that the processor has for it.
pub mod Digits
pub mod Order
pub mod Message
pub mod Floats
mod Examples
use mathlib.Core.List.{reverse}
use libsg.Common.{
  ℕ, zero, suc, ◌+◌, ◌*◌, ◌/◌, ◌%◌, Bool, true, false, Option, none, some, List, [], ◌∷◌, ◌++◌,
  length, take, drop, ltb, if◌then◌else◌, get_elem?,
}

-- std::endian
pub data Endian : Type 0 where
  little big : Endian

abbrev pub same : Endian → Endian → Bool
same Endian.little Endian.little = true
same Endian.big Endian.big = true
same Endian.little Endian.big = false
same Endian.big Endian.little = false

-- the bytes of a word, the lowest first
unfoldable pub digits : ℕ → ℕ → List ℕ
digits zero x = []
digits (suc w) x = x % 256 ∷ digits w (x / 256)

unfoldable pub number : List ℕ → ℕ
number [] = 0
number (b ∷ bs) = b + 256 * number bs

abbrev pub ordered : Endian → List ℕ → List ℕ
ordered Endian.little bs = bs
ordered Endian.big bs = reverse bs

-- `std::bit_cast` to an array of bytes, on a processor of this byte order
abbrev pub object_bytes : Endian → ℕ → ℕ → List ℕ
object_bytes native w x = ordered native (digits w x)

-- `std::bit_cast` and `memcpy` from bytes
abbrev pub object_value : Endian → List ℕ → ℕ
object_value native bs = number (ordered native bs)

unfoldable pub byteswap : Endian → ℕ → ℕ → ℕ
byteswap native w x = object_value native (reverse (object_bytes native w x))

unfoldable pub to_bytes : Endian → ℕ → ℕ → Endian → List ℕ
to_bytes native w x dst = object_bytes native w (if same dst native then x else byteswap native w x)

-- of a contiguous range, in the order of the processor
unfoldable pub range_to_bytes : Endian → ℕ → List ℕ → List ℕ
range_to_bytes native w [] = []
range_to_bytes native w (x ∷ xs) = object_bytes native w x ++ range_to_bytes native w xs

unfoldable pub to_object : Endian → ℕ → List ℕ → ℕ
to_object native w buff = object_value native (take w buff)

unfoldable pub to_numeric : Endian → ℕ → List ℕ → Endian → ℕ
unfolding to_object
to_numeric native w buff src =
    if same native src then to_object native w buff else byteswap native w (to_object native w buff)

-- The range from `it` to `end` is a list; none is the exception.
unfoldable pub to_numeric_within : Endian → ℕ → List ℕ → Endian → Option ℕ
to_numeric_within native w range src =
    if ltb (length range) w then none else some (to_numeric native w range src)

unfoldable pub to_object_and_advance_ptr : Endian → ℕ → List ℕ → ℕ × List ℕ
to_object_and_advance_ptr native w buff = (to_object native w buff, drop w buff)

unfoldable pub to_numeric_and_advance_ptr : Endian → ℕ → List ℕ → Endian → ℕ × List ℕ
to_numeric_and_advance_ptr native w buff src = (to_numeric native w buff src, drop w buff)

unfoldable pub to_numeric_and_advance_iterator : Endian → ℕ → List ℕ → Endian → Option (ℕ × List ℕ)
to_numeric_and_advance_iterator native w range src = elim (to_numeric_within native w range src) [
  | none ↦ none
  | some x ↦ some (x, drop w range)
]

unfoldable pub float_to_bytes : Endian → List ℕ → Endian → List ℕ
float_to_bytes native object dst = if same native dst then object else reverse object

-- The loop `ptr[i] = buff[size - i - 1]` fills the object from its last byte read to the first.
unfoldable pub copy_backwards : ℕ → List ℕ → List ℕ
copy_backwards zero buff = []
copy_backwards (suc n) buff = elim (get_elem? buff n) [
  | none ↦ copy_backwards n buff
  | some b ↦ b ∷ copy_backwards n buff
]

unfoldable pub to_float : Endian → ℕ → List ℕ → Endian → List ℕ
to_float native size buff src = if same native src then take size buff else copy_backwards size buff
