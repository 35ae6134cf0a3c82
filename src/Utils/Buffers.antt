-- ===== src/Utils/Buffers.antt =====
-- src/utils/buffers.h and buffers.cpp. A `std::vector<char>` is a list of bytes: a `char` is taken by
-- its bit pattern, which is what the casts to `uint8_t` read. An index out of range is undefined
-- behaviour in the source; here a read gives 0 and a write changes nothing.
pub mod RoundTrip
use waterproof_wrapper.Base.{
  ℕ, ◌+◌, ◌%◌, ◌^◌, List, get_or, set, length, replicate, bit_or, bit_and,
}
use waterproof_wrapper.Base.Bits.{shr, shl}

pub data Endianness : Type 0 where
  little big : Endianness

-- `std::fill(buffer.begin(), buffer.end(), 0)`.
unfoldable pub clear : List ℕ → List ℕ
clear buffer = replicate (length buffer) 0

-- `result |= static_cast<uint8_t>(byte) << places`. The shift is done in `int`, and the result is
-- converted to `uint32_t`.
abbrev pub join : ℕ → ℕ → ℕ → ℕ
join result byte places = bit_or result (shl (byte % 256) places % 2 ^ 32)

unfoldable pub read_uint32 : List ℕ → Endianness → ℕ → ℕ
read_uint32 buffer Endianness.big offset =
    let result = join 0 (get_or buffer offset 0) 24 in
    let result = join result (get_or buffer (offset + 1) 0) 16 in
    let result = join result (get_or buffer (offset + 2) 0) 8 in
    join result (get_or buffer (offset + 3) 0) 0
read_uint32 buffer Endianness.little offset =
    let result = join 0 (get_or buffer offset 0) 0 in
    let result = join result (get_or buffer (offset + 1) 0) 8 in
    let result = join result (get_or buffer (offset + 2) 0) 16 in
    join result (get_or buffer (offset + 3) 0) 24

-- A value that is stored in a `char` is cut to eight bits.
abbrev pub to_char : ℕ → ℕ
to_char value = value % 256

unfoldable pub write_uint32 : ℕ → List ℕ → Endianness → ℕ → List ℕ
write_uint32 value buffer Endianness.big offset =
    let buffer = set buffer offset (to_char (shr value 24)) in
    let buffer = set buffer (offset + 1) (to_char (bit_and (shr value 16) 0xff)) in
    let buffer = set buffer (offset + 2) (to_char (bit_and (shr value 8) 0xff)) in
    set buffer (offset + 3) (to_char (bit_and value 0xff))
write_uint32 value buffer Endianness.little offset =
    let buffer = set buffer offset (to_char (bit_and value 0xff)) in
    let buffer = set buffer (offset + 1) (to_char (bit_and (shr value 8) 0xff)) in
    let buffer = set buffer (offset + 2) (to_char (bit_and (shr value 16) 0xff)) in
    set buffer (offset + 3) (to_char (shr value 24))
