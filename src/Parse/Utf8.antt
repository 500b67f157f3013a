-- ===== src/Parse/Utf8.antt =====
-- parse.c: parse_utf8. The bit masks are written as divisions of a byte: `c & 0xF0` as `c / 16`,
-- `c & 0xC0` as `c / 64`, and `value << 6 | c & 0x3f`, whose bits are disjoint, as a sum. A value has
-- 31 bits at most, so that no `uint32_t` wraps.
pub mod Encode
pub mod RoundTrip
pub mod Sound
use lsh.Prelude.{
  ℕ, zero, suc, ◌+◌, ◌-◌, ◌*◌, ◌/◌, ◌%◌, Bool, ◌||◌, ◌&&◌, not, Option, none, some, if◌then◌else◌,
  ltb, leb, ◌==◌,
}
use lsh.Parse.{SimpleBuffer, left, here, advance}

-- The return value -1, 0 or 1, with `*result`, and `*utf8_length` where it is written.
pub data Utf8 : Type 0 where
  at_end : SimpleBuffer → Utf8
  invalid : Option ℕ → SimpleBuffer → Utf8
  char : ℕ → ℕ → SimpleBuffer → Utf8

-- The switch on the first byte: the length of the sequence and the bits of its value. `other` is the
-- outer default, `no_length` the inner one, which does not write the length.
pub data Lead : Type 0 where
  other no_length : Lead
  sequence : ℕ → ℕ → Lead

unfoldable pub lead : ℕ → Lead
lead c =
    if c / 16 == 0xC || c / 16 == 0xD
    then sequence 2 (c % 32)
    else if c / 16 == 0xE
    then sequence 3 (c % 16)
    else if c / 16 == 0xF
    then (if ltb (c % 16) 8
        then sequence 4 (c % 8)
        else if ltb (c % 16) 12
        then sequence 5 (c % 4)
        else if ltb (c % 16) 14
        then sequence 6 (c % 2)
        else no_length)
    else other

-- The smallest value that needs so many bytes.
unfoldable pub min_value : ℕ → ℕ
min_value length =
    if length == 2
    then 0x80
    else if length == 3
    then 0x800
    else if length == 4
    then 0x10000
    else if length == 5
    then 0x200000
    else if length == 6
    then 0x4000000
    else 0

-- Surrogates and non-characters.
unfoldable pub excluded : ℕ → Bool
excluded value = leb 0xd800 value && ltb value 0xe000 || value == 0xfffe || value == 0xffff

unfoldable pub finish_utf8 : ℕ → ℕ → SimpleBuffer → Utf8
finish_utf8 length value b =
    if ltb value (min_value length) || excluded value
    then invalid (some length) (advance length b)
    else char value length (advance length b)

-- The bytes from index `i` on; `rounds` of them are left.
unfoldable pub follow : ℕ → ℕ → ℕ → SimpleBuffer → Utf8
follow zero i value b = finish_utf8 i value b
follow (suc rounds) i value b =
    let more = follow rounds (i + 1) (value * 64 + here b i % 64) b in
    if here b i / 64 == 2 then more else invalid (some i) (advance i b)

-- What the first byte decides.
unfoldable pub read_sequence : SimpleBuffer → Lead → Utf8
read_sequence b other = invalid (some 1) (advance 1 b)
read_sequence b no_length = invalid none (advance 1 b)
read_sequence b (sequence length value) =
    if ltb (left b) length
    then invalid (some 1) (advance (left b) b)
    else follow (length - 1) 1 value b

unfoldable pub parse_utf8 : SimpleBuffer → Utf8
parse_utf8 b =
    if left b == 0
    then at_end b
    else if ltb (here b 0) 0x80
    then char (here b 0) 1 (advance 1 b)
    else read_sequence b (lead (here b 0))
