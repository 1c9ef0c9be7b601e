-- ===== src/Crc.antt =====
-- common/src/crc.cpp and common/src/include/crc32c_tabular.h: CRC-32 by tables, up to 16 bytes at a
-- time, as compiled for a little-endian processor without CRC instructions. A byte is a number
-- below 256, a `uint32_t` a number below 2 ^ 32.
pub mod Linear
pub mod Bytewise
pub mod Slices
pub mod Tabular
mod Examples
use libsg.Common.{
  ℕ, zero, suc, ◌+◌, ◌-◌, ◌*◌, ◌/◌, ◌%◌, ◌^◌, List, [], ◌∷◌, length, take, drop, leb, ◌==◌,
  if◌then◌else◌,
}
use libsg.Common.Xor.{◌⊕◌}

-- one round of the loop over the eight bits
unfoldable pub shift_bit : ℕ → ℕ → ℕ
shift_bit polynomial r = if r % 2 == 1 then (r / 2) ⊕ polynomial else r / 2

unfoldable pub shift_bits : ℕ → ℕ → ℕ → ℕ
unfolding shift_bit
shift_bits polynomial zero r = r
shift_bits polynomial (suc n) r = shift_bits polynomial n (shift_bit polynomial r)

-- `pTbl[i]` below 256: the eight rounds
unfoldable pub first_table : ℕ → ℕ → ℕ
unfolding shift_bits
first_table polynomial i = shift_bits polynomial 8 i

-- `pTbl[256 * k + i]`: the first table, and each other one from the one before
unfoldable pub table : ℕ → ℕ → ℕ → ℕ
unfolding first_table
table polynomial zero i = first_table polynomial i
table polynomial (suc k) i =
    let r = table polynomial k i in (r / 256) ⊕ first_table polynomial (r % 256)

-- the bytes of a word in memory
unfoldable pub load : List ℕ → ℕ
load [] = 0
load (b ∷ bs) = b + 256 * load bs

unfoldable pub crc32_tabular_1_byte : ℕ → List ℕ → ℕ → ℕ
unfolding table
crc32_tabular_1_byte polynomial [] r = r
crc32_tabular_1_byte polynomial (b ∷ bs) r =
    crc32_tabular_1_byte polynomial bs ((r / 256) ⊕ table polynomial 0 ((r ⊕ b) % 256))

-- `while` there are `n` bytes or more: a block, then the rest. The first number is the fuel.
unfoldable pub blocks : ℕ → ℕ → (List ℕ → ℕ → ℕ) → (List ℕ → ℕ → ℕ) → List ℕ → ℕ → ℕ
blocks zero n block rest data_bytes r = rest data_bytes r
blocks (suc fuel) n block rest data_bytes r =
    let again = blocks fuel n block rest (drop n data_bytes) (block (take n data_bytes) r) in
    if leb n (length data_bytes) then again else rest data_bytes r

unfoldable pub block_2 : ℕ → List ℕ → ℕ → ℕ
unfolding table load
block_2 polynomial bs r =
    let x = r ⊕ load (take 2 bs) in
    (x / 65536) ⊕ table polynomial 0 (x / 256 % 256) ⊕ table polynomial 1 (x % 256)

unfoldable pub crc32_tabular_2_bytes : ℕ → List ℕ → ℕ → ℕ
unfolding blocks block_2 crc32_tabular_1_byte
crc32_tabular_2_bytes polynomial bs =
    blocks (length bs) 2 (block_2 polynomial) (crc32_tabular_1_byte polynomial) bs

-- the four lookups for one word, in four tables from the `k`-th on
unfoldable pub look_up : ℕ → ℕ → ℕ → ℕ
unfolding table
look_up polynomial k x =
    table polynomial k (x / 16777216 % 256)
    ⊕ table polynomial (suc k) (x / 65536 % 256)
    ⊕ table polynomial (suc (suc k)) (x / 256 % 256)
    ⊕ table polynomial (suc (suc (suc k))) (x % 256)

unfoldable pub block_4 : ℕ → List ℕ → ℕ → ℕ
unfolding look_up load
block_4 polynomial bs r = look_up polynomial 0 (r ⊕ load (take 4 bs))

unfoldable pub crc32_tabular_4_bytes : ℕ → List ℕ → ℕ → ℕ
unfolding blocks block_4 crc32_tabular_2_bytes
crc32_tabular_4_bytes polynomial bs =
    blocks (length bs) 4 (block_4 polynomial) (crc32_tabular_2_bytes polynomial) bs

unfoldable pub block_8 : ℕ → List ℕ → ℕ → ℕ
unfolding look_up load
block_8 polynomial bs r =
    let x = r ⊕ load (take 4 bs) in
    let x2 = load (take 4 (drop 4 bs)) in look_up polynomial 0 x2 ⊕ look_up polynomial 4 x

unfoldable pub crc32_tabular_8_bytes : ℕ → List ℕ → ℕ → ℕ
unfolding blocks block_8 crc32_tabular_4_bytes
crc32_tabular_8_bytes polynomial bs =
    blocks (length bs) 8 (block_8 polynomial) (crc32_tabular_4_bytes polynomial) bs

unfoldable pub block_16 : ℕ → List ℕ → ℕ → ℕ
unfolding look_up load
block_16 polynomial bs r =
    let x = r ⊕ load (take 4 bs) in
    let x2 = load (take 4 (drop 4 bs)) in
    let x3 = load (take 4 (drop 8 bs)) in
    let x4 = load (take 4 (drop 12 bs)) in
    look_up polynomial 0 x4
    ⊕ look_up polynomial 4 x3
    ⊕ look_up polynomial 8 x2
    ⊕ look_up polynomial 12 x

unfoldable pub crc32_tabular_16_bytes : ℕ → List ℕ → ℕ → ℕ
unfolding blocks block_16 crc32_tabular_8_bytes
crc32_tabular_16_bytes polynomial bs =
    blocks (length bs) 16 (block_16 polynomial) (crc32_tabular_8_bytes polynomial) bs

unfoldable pub crc32c_tabular : ℕ → List ℕ → ℕ → ℕ
unfolding crc32_tabular_16_bytes crc32_tabular_8_bytes crc32_tabular_4_bytes crc32_tabular_2_bytes
    crc32_tabular_1_byte
crc32c_tabular polynomial bs r =
    if leb 16 (length bs)
    then crc32_tabular_16_bytes polynomial bs r
    else (if leb 8 (length bs)
        then crc32_tabular_8_bytes polynomial bs r
        else (if leb 4 (length bs)
            then crc32_tabular_4_bytes polynomial bs r
            else (if leb 2 (length bs)
                then crc32_tabular_2_bytes polynomial bs r
                else crc32_tabular_1_byte polynomial bs r)))

-- `~` on a `uint32_t`
abbrev pub complement : ℕ → ℕ
complement r = 2 ^ 32 - 1 - r

unfoldable pub crc32c : List ℕ → ℕ → ℕ
unfolding crc32c_tabular
crc32c bs remainder = complement (crc32c_tabular 0x82f63b78 bs (complement remainder))

unfoldable pub crc32 : List ℕ → ℕ → ℕ
unfolding crc32c_tabular
crc32 bs remainder = complement (crc32c_tabular 0xedb88320 bs (complement remainder))
