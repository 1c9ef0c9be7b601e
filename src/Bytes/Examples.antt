-- ===== src/Bytes/Examples.antt =====
-- A record with a 16-bit, a 32-bit and an 8-bit field.
use libsg.Common.{ℕ, ◌≡◌, refl, some, List, [], ◌∷◌, ◌++◌, length, leb, arith}
use libsg.Bytes.{Endian, digits, number, byteswap, to_bytes}
use libsg.Bytes.Message.{
  Field, formats, values, encode, decode, is_some, AreWords, message_read_back,
}

-- cut off inside the second field
abbrev cut : List ℕ
cut = 1 ∷ 2 ∷ 1 ∷ []

abbrev fields : List Field
fields =
    record { format = record { width = 2; order = Endian.big }; value = 258 }
    ∷ record { format = record { width = 4; order = Endian.little }; value = 4278190081 }
    ∷ record { format = record { width = 1; order = Endian.big }; value = 255 }
    ∷ []

swapped : byteswap Endian.big 2 258 ≡ 513
unfolding byteswap digits number
swapped = refl

on_the_wire : encode Endian.little fields ≡ 1 ∷ 2 ∷ 1 ∷ 0 ∷ 0 ∷ 255 ∷ 255 ∷ []
unfolding encode to_bytes byteswap digits number
on_the_wire = refl

fields-AreWords : AreWords fields
fields-AreWords = (omega arith, (omega arith, (omega arith, tt)))

message_read_back_example :
    (decode Endian.big (formats fields) (encode Endian.little fields ++ (9 ∷ []))
      ≡ some (values fields, 9 ∷ []))
    × (is_some (decode Endian.big (formats fields) cut)
        ≡ leb (length (encode Endian.little fields)) (length cut))
message_read_back_example =
    message_read_back Endian.little Endian.big fields (9 ∷ []) cut fields-AreWords
