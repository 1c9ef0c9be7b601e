-- ===== src/Crc/Examples.antt =====
-- The checksums of the digits 1 to 9, and of more bytes.
use libsg.Common.{ℕ, ◌≡◌, refl, List, [], ◌∷◌, ◌++◌, arith}
use libsg.Crc.{
  shift_bit, shift_bits, first_table, table, load, blocks, look_up, block_2, block_4, block_8,
  block_16, complement, crc32, crc32c, crc32c_tabular, crc32_tabular_1_byte, crc32_tabular_2_bytes,
  crc32_tabular_4_bytes, crc32_tabular_8_bytes, crc32_tabular_16_bytes,
}
use libsg.Crc.Bytewise.{bytewise}
use libsg.Crc.Tabular.{castagnoli, iso_hdlc, crc-bytewise}

abbrev digits : List ℕ
digits = 0x31 ∷ 0x32 ∷ 0x33 ∷ 0x34 ∷ 0x35 ∷ 0x36 ∷ 0x37 ∷ 0x38 ∷ 0x39 ∷ []

check_crc32 : crc32 digits 0 ≡ 0xcbf43926
unfolding shift_bit shift_bits first_table table load blocks look_up block_2 block_4 block_8
    block_16 crc32 crc32c_tabular crc32_tabular_1_byte crc32_tabular_2_bytes crc32_tabular_4_bytes
    crc32_tabular_8_bytes crc32_tabular_16_bytes
check_crc32 = refl

check_crc32c : crc32c digits 0 ≡ 0xe3069283
unfolding shift_bit shift_bits first_table table load blocks look_up block_2 block_4 block_8
    block_16 crc32c crc32c_tabular crc32_tabular_1_byte crc32_tabular_2_bytes crc32_tabular_4_bytes
    crc32_tabular_8_bytes crc32_tabular_16_bytes
check_crc32c = refl

crc-bytewise_example :
    (crc32c (digits ++ digits) 0
      ≡ complement (bytewise castagnoli (digits ++ digits) (complement 0)))
    × (crc32 (digits ++ digits) 0
        ≡ complement (bytewise iso_hdlc (digits ++ digits) (complement 0)))
crc-bytewise_example = crc-bytewise (digits ++ digits) 0 (omega arith)
