-- ===== src/Crc.antt =====
-- src/Crc32.cpp: the table-driven CRC-32 of the wire format.
pub mod Linear
pub mod Bitwise
use naudio.Prelude.{ℕ, zero, suc, ◌/◌, ◌%◌, List, [], ◌∷◌, ◌==◌, if◌then◌else◌}
use naudio.Prelude.Xor.{bit_xor}

abbrev pub polynomial : ℕ
polynomial = 0xedb8_8320

-- `c = (c & 1u) ? (0xEDB88320u ^ (c >> 1)) : (c >> 1)`
unfoldable pub crc_round : ℕ → ℕ
crc_round c = if c % 2 == 1 then bit_xor polynomial (c / 2) else c / 2

unfoldable pub crc_rounds : ℕ → ℕ → ℕ
unfolding crc_round
crc_rounds zero c = c
crc_rounds (suc k) c = crc_rounds k (crc_round c)

-- Entry `i` of the table.
unfoldable pub crc32_table : ℕ → ℕ
unfolding crc_rounds
crc32_table i = crc_rounds 8 i

-- The loop over the bytes; `& 0xFF` is the remainder by 256.
unfoldable pub crc_update : ℕ → List ℕ → ℕ
unfolding crc32_table
crc_update crc [] = crc
crc_update crc (b ∷ bs) = crc_update (bit_xor (crc32_table (bit_xor crc b % 256)) (crc / 256)) bs

unfoldable pub crc32 : List ℕ → ℕ
unfolding crc_update
crc32 bytes = bit_xor (crc_update 0xffff_ffff bytes) 0xffff_ffff
