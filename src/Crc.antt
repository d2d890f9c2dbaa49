-- ===== src/Crc.antt =====
-- `zlib.crc32` of Python's standard library: the reflected CRC-32 with polynomial 0xEDB88320.
use pi86_rp.Common.{ℕ, ◌/◌, ◌%◌, bit_xor, ◌≡◌, refl, [], ◌∷◌, ◌==◌, if◌then◌else◌, ascii, Bytes}

-- One bit.
crc_bit : ℕ → ℕ
crc_bit c = if c % 2 == 0 then c / 2 else bit_xor (c / 2) 0xEDB88320

crc_byte : ℕ → ℕ → ℕ
unfolding crc_bit
crc_byte c b =
    crc_bit (crc_bit (crc_bit (crc_bit (crc_bit (crc_bit (crc_bit (crc_bit (bit_xor c b))))))))

crc_bytes : ℕ → Bytes → ℕ
unfolding crc_byte
crc_bytes c [] = c
crc_bytes c (b ∷ bs) = crc_bytes (crc_byte c b) bs

unfoldable pub crc32 : Bytes → ℕ
unfolding crc_bytes
crc32 bs = bit_xor (crc_bytes 0xFFFFFFFF bs) 0xFFFFFFFF

-- The check value of the CRC's definition.
crc32_check : crc32 (ascii "123456789") ≡ 0xCBF43926
unfolding crc32
crc32_check = refl
