-- ===== src/Utils/Buffers/RoundTrip.antt =====
-- The reads and writes of 32-bit words in plain arithmetic.
use waterproof_wrapper.Base.{
  ℕ, ◌+◌, ◌*◌, ◌/◌, ◌%◌, ◌^◌, ◌≤◌, ◌<◌, ◌≡◌, ◌≢◌, ◌⊎◌, ◌∙◌, arith, List, [], ◌∷◌, ◌++◌, get_or, set,
  length, length-set, get_or-set_self, get_or-set_other, set-get_or, get_or-All, replicate, All,
}
use waterproof_wrapper.Base.Bits.{IsByte, IsU32, or_high_low, or_low_high, and_byte_mask}
use waterproof_wrapper.Utils.Buffers.{Endianness, join, read_uint32, write_uint32}

-- The value of four bytes, the most significant first.
abbrev pub word : ℕ → ℕ → ℕ → ℕ → ℕ
word a b c d = a * 2 ^ 24 + b * 2 ^ 16 + c * 2 ^ 8 + d

join_big :
    (a b c d : ℕ)
    → join (join (join (join 0 a 24) b 16) c 8) d 0 ≡ word (a % 256) (b % 256) (c % 256) (d % 256)
join_big a b c d = ground (
  arith,
  or_low_high 24 0 (a % 256),
  or_high_low 24 (a % 256) (b % 256 * 2 ^ 16),
  or_high_low 16 (a % 256 * 2 ^ 8 + b % 256) (c % 256 * 2 ^ 8),
  or_high_low 8 (a % 256 * 2 ^ 16 + b % 256 * 2 ^ 8 + c % 256) (d % 256),
)

join_little :
    (a b c d : ℕ)
    → join (join (join (join 0 a 0) b 8) c 16) d 24 ≡ word (d % 256) (c % 256) (b % 256) (a % 256)
join_little a b c d = ground (
  arith,
  or_low_high 0 0 (a % 256),
  or_low_high 8 (a % 256) (b % 256),
  or_low_high 16 (a % 256 + b % 256 * 2 ^ 8) (c % 256),
  or_low_high 24 (a % 256 + b % 256 * 2 ^ 8 + c % 256 * 2 ^ 16) (d % 256),
)

-- Four writes in a row.
abbrev store : List ℕ → ℕ → ℕ → ℕ → ℕ → ℕ → List ℕ
store xs o a b c d = set (set (set (set xs o a) (o + 1) b) (o + 2) c) (o + 3) d

module _ (xs : List ℕ) (o a b c d : ℕ) where
  store_last : o + 4 ≤ length xs → get_or (store xs o a b c d) (o + 3) 0 ≡ d
  store_last h = get_or-set_self (set (set (set xs o a) (o + 1) b) (o + 2) c) (o + 3) d 0 (
      omega (
        arith,
        length-set (set (set xs o a) (o + 1) b) (o + 2) c,
        length-set (set xs o a) (o + 1) b,
        length-set xs o a,
      ))

  store_third : o + 4 ≤ length xs → get_or (store xs o a b c d) (o + 2) 0 ≡ c
  store_third h =
      get_or-set_other _ (o + 3) (o + 2) d 0 (omega arith)
      ∙ get_or-set_self (set (set xs o a) (o + 1) b) (o + 2) c 0
          (omega (arith, length-set (set xs o a) (o + 1) b, length-set xs o a))

  store_second : o + 4 ≤ length xs → get_or (store xs o a b c d) (o + 1) 0 ≡ b
  store_second h =
      get_or-set_other _ (o + 3) (o + 1) d 0 (omega arith)
      ∙ get_or-set_other _ (o + 2) (o + 1) c 0 (omega arith)
      ∙ get_or-set_self (set xs o a) (o + 1) b 0 (omega (arith, length-set xs o a))

  store_first : o + 4 ≤ length xs → get_or (store xs o a b c d) o 0 ≡ a
  store_first h =
      get_or-set_other _ (o + 3) o d 0 (omega arith)
      ∙ get_or-set_other _ (o + 2) o c 0 (omega arith)
      ∙ get_or-set_other _ (o + 1) o b 0 (omega arith)
      ∙ get_or-set_self xs o a 0 (omega arith)

  store_outside :
      (j : ℕ)
      → j ≢ o
      → j ≢ o + 1
      → j ≢ o + 2
      → j ≢ o + 3
      → get_or (store xs o a b c d) j 0 ≡ get_or xs j 0
  store_outside j h0 h1 h2 h3 =
      get_or-set_other _ (o + 3) j d 0 (omega arith)
      ∙ get_or-set_other _ (o + 2) j c 0 (omega arith)
      ∙ get_or-set_other _ (o + 1) j b 0 (omega arith)
      ∙ get_or-set_other xs o j a 0 (omega arith)

  length-store : length (store xs o a b c d) ≡ length xs
  length-store = omega (
    arith,
    length-set (set (set (set xs o a) (o + 1) b) (o + 2) c) (o + 3) d,
    length-set (set (set xs o a) (o + 1) b) (o + 2) c,
    length-set (set xs o a) (o + 1) b,
    length-set xs o a,
  )

to_char_twice : (x : ℕ) → x % 256 % 256 ≡ x % 256
to_char_twice x = omega arith

write_uint32_big :
    (v o : ℕ) (xs : List ℕ)
    → write_uint32 v xs Endianness.big o
      ≡ store xs o (v / 2 ^ 24 % 256) (v / 2 ^ 16 % 256) (v / 2 ^ 8 % 256) (v % 256)
unfolding write_uint32
write_uint32_big v o xs = simp (and_byte_mask, to_char_twice)

write_uint32_little :
    (v o : ℕ) (xs : List ℕ)
    → write_uint32 v xs Endianness.little o
      ≡ store xs o (v % 256) (v / 2 ^ 8 % 256) (v / 2 ^ 16 % 256) (v / 2 ^ 24 % 256)
unfolding write_uint32
write_uint32_little v o xs = simp (and_byte_mask, to_char_twice)

-- The bytes of a word, most significant first, give it back.
word_of_bytes :
    (v : ℕ)
    → IsU32 v
    → word (v / 2 ^ 24 % 256 % 256) (v / 2 ^ 16 % 256 % 256) (v / 2 ^ 8 % 256 % 256) (v % 256 % 256)
      ≡ v
word_of_bytes v h = omega arith

read_uint32_big :
    (xs : List ℕ) (o : ℕ)
    → read_uint32 xs Endianness.big o
      ≡ word
          (get_or xs o 0 % 256)
          (get_or xs (o + 1) 0 % 256)
          (get_or xs (o + 2) 0 % 256)
          (get_or xs (o + 3) 0 % 256)
unfolding read_uint32
read_uint32_big xs o = join_big _ _ _ _

read_uint32_little :
    (xs : List ℕ) (o : ℕ)
    → read_uint32 xs Endianness.little o
      ≡ word
          (get_or xs (o + 3) 0 % 256)
          (get_or xs (o + 2) 0 % 256)
          (get_or xs (o + 1) 0 % 256)
          (get_or xs o 0 % 256)
unfolding read_uint32
read_uint32_little xs o = join_little _ _ _ _

-- A 32-bit value that is written at an offset where four bytes fit is read back there, in either
-- byte order.
pub read_uint32-write_uint32 :
    (v o : ℕ) (xs : List ℕ) (e : Endianness)
    → IsU32 v
    → o + 4 ≤ length xs
    → read_uint32 (write_uint32 v xs e o) e o ≡ v
read_uint32-write_uint32 v o xs Endianness.big hv h =
    rw
      (
        write_uint32_big v o xs,
        read_uint32_big,
        store_first xs o _ _ _ _ h,
        store_second xs o _ _ _ _ h,
        store_third xs o _ _ _ _ h,
        store_last xs o _ _ _ _ h,
      )
      (word_of_bytes v hv)
read_uint32-write_uint32 v o xs Endianness.little hv h =
    rw
      (
        write_uint32_little v o xs,
        read_uint32_little,
        store_first xs o _ _ _ _ h,
        store_second xs o _ _ _ _ h,
        store_third xs o _ _ _ _ h,
        store_last xs o _ _ _ _ h,
      )
      (word_of_bytes v hv)

bytes_at : (xs : List ℕ) → All IsByte xs → (i : ℕ) → IsByte (get_or xs i 0)
bytes_at xs h i = get_or-All IsByte xs i 0 (omega arith) h

bytes_of_word :
    (a b c d : ℕ)
    → IsByte a
    → IsByte b
    → IsByte c
    → IsByte d
    → let v = word (a % 256) (b % 256) (c % 256) (d % 256) in
      (v / 2 ^ 24 % 256 ≡ a) × (v / 2 ^ 16 % 256 ≡ b) × (v / 2 ^ 8 % 256 ≡ c) × (v % 256 ≡ d)
bytes_of_word a b c d ha hb hc hd = omega arith

-- Writing the value that is read at an offset gives the buffer back, in either byte order, if the
-- buffer holds bytes.
pub write_uint32-read_uint32 :
    (o : ℕ) (xs : List ℕ) (e : Endianness)
    → All IsByte xs
    → write_uint32 (read_uint32 xs e o) xs e o ≡ xs
write_uint32-read_uint32 o xs Endianness.big hb =
    let (a, b, c, d) =
      bytes_of_word _ _ _ _ (bytes_at xs hb o) (bytes_at xs hb (o + 1)) (bytes_at xs hb (o + 2))
        (bytes_at xs hb (o + 3)) in
    write_uint32_big _ o xs ∙ rw (read_uint32_big xs o, a, b, c, d) (simp set-get_or)
write_uint32-read_uint32 o xs Endianness.little hb =
    let (a, b, c, d) =
      bytes_of_word _ _ _ _ (bytes_at xs hb (o + 3)) (bytes_at xs hb (o + 2))
        (bytes_at xs hb (o + 1)) (bytes_at xs hb o) in
    write_uint32_little _ o xs ∙ rw (read_uint32_little xs o, a, b, c, d) (simp set-get_or)

-- A write at an offset behind which the buffer has four bytes keeps the length of the buffer and every
-- byte outside these four.
pub write_uint32_frame :
    (v o j : ℕ) (xs : List ℕ) (e : Endianness)
    → o + 4 ≤ length xs
    → (j < o) ⊎ (o + 4 ≤ j)
    → (length (write_uint32 v xs e o) ≡ length xs)
      × (get_or (write_uint32 v xs e o) j 0 ≡ get_or xs j 0)
write_uint32_frame v o j xs Endianness.big fits h = rw (write_uint32_big v o xs) (
  length-store xs o _ _ _ _,
  store_outside xs o _ _ _ _ j (ground arith) (ground arith) (ground arith) (ground arith),
)
write_uint32_frame v o j xs Endianness.little fits h = rw (write_uint32_little v o xs) (
  length-store xs o _ _ _ _,
  store_outside xs o _ _ _ _ j (ground arith) (ground arith) (ground arith) (ground arith),
)

-- What is read is a 32-bit value, whatever the buffer holds.
pub read_uint32-IsU32 : (xs : List ℕ) (o : ℕ) (e : Endianness) → IsU32 (read_uint32 xs e o)
read_uint32-IsU32 xs o Endianness.big = rw (read_uint32_big xs o) (omega arith)
read_uint32-IsU32 xs o Endianness.little = rw (read_uint32_little xs o) (omega arith)

-- The four bytes of a word in big-endian order.
abbrev pub big_endian : ℕ → List ℕ
big_endian v = (v / 2 ^ 24 % 256) ∷ (v / 2 ^ 16 % 256) ∷ (v / 2 ^ 8 % 256) ∷ (v % 256) ∷ []

-- The header of a message: a buffer of four bytes, to which a word is written in big-endian order,
-- holds its bytes in that order.
pub write_header : (v : ℕ) → write_uint32 v (replicate 4 0) Endianness.big 0 ≡ big_endian v
write_header v = write_uint32_big v 0 (replicate 4 0)

-- They are read back from the front of any buffer.
pub read_header :
    (v : ℕ) (tail : List ℕ) → IsU32 v → read_uint32 (big_endian v ++ tail) Endianness.big 0 ≡ v
read_header v tail h = read_uint32_big (big_endian v ++ tail) 0 ∙ word_of_bytes v h
