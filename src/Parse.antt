-- ===== src/Parse.antt =====
-- parse.c, parse.h and parse_macros.h of src: a cursor over the bytes of a packet. Pointers into
-- the data are the bytes that they point at; the out-parameters are the value of the result.
pub mod Cursor
pub mod Refine
pub mod Atoms
pub mod Utf8
pub mod Runs
use lsh.Prelude.{
  ℕ, ◌+◌, ◌*◌, Bool, not, ◌&&◌, List, if◌then◌else◌, ltb, ◌==◌, add32, sub32, length, get_or, take,
  drop,
}

pub record SimpleBuffer : Type 0 where
  pub capacity : ℕ
  pub pos : ℕ
  pub bytes : List ℕ

-- A zero return leaves the cursor where the failing call left it.
pub data Parsed {ℓ} (A : Type ℓ) : Type ℓ where
  failed : SimpleBuffer → Parsed A
  parsed : A → SimpleBuffer → Parsed A

abbrev pub bind {ℓ κ} :
    {A : Type ℓ} {B : Type κ} → Parsed A → (A → SimpleBuffer → Parsed B) → Parsed B
bind (failed b) f = failed b
bind (parsed a b) f = f a b

abbrev pub Parser {ℓ} : Type ℓ → Type ℓ
Parser A = SimpleBuffer → Parsed A

infixl 5 ◌>>=◌
abbrev pub ◌>>=◌ {ℓ κ} : {A : Type ℓ} {B : Type κ} → Parser A → (A → Parser B) → Parser B
◌>>=◌ p f b = bind (p b) f

abbrev pub pure {ℓ} : {A : Type ℓ} → A → Parser A
pure a b = parsed a b

unfoldable pub simple_buffer_init : ℕ → List ℕ → SimpleBuffer
simple_buffer_init capacity bytes = record { capacity = capacity; pos = 0; bytes = bytes }

-- `LEFT`, an unsigned difference.
abbrev pub left : SimpleBuffer → ℕ
left b = sub32 b.capacity b.pos

-- `HERE[i]`
abbrev pub here : SimpleBuffer → ℕ → ℕ
here b i = get_or b.bytes (b.pos + i) 0

-- `ADVANCE(n)`
abbrev pub advance : ℕ → SimpleBuffer → SimpleBuffer
advance n b = record b { pos = add32 b.pos n }

-- `READ_UINT32`: four bytes, the most significant first.
unfoldable pub read_uint32 : ℕ → ℕ → ℕ → ℕ → ℕ
read_uint32 p0 p1 p2 p3 = p0 * 16777216 + p1 * 65536 + p2 * 256 + p3

unfoldable pub parse_uint32 : Parser ℕ
unfolding read_uint32
parse_uint32 b =
    if ltb (left b) 4
    then failed b
    else parsed (read_uint32 (here b 0) (here b 1) (here b 2) (here b 3)) (advance 4 b)

-- The bytes are copied, with no length header.
unfoldable pub parse_octets : ℕ → Parser (List ℕ)
parse_octets length b =
    if ltb (left b) length
    then failed b
    else parsed (take length (drop b.pos b.bytes)) (advance length b)

unfoldable pub parse_string : Parser (List ℕ)
unfolding parse_uint32 parse_octets
parse_string = do l ← parse_uint32; parse_octets l

-- The sub-buffer covers the string that the buffer is at.
unfoldable pub parse_sub_buffer : Parser SimpleBuffer
unfolding parse_string simple_buffer_init
parse_sub_buffer = do s ← parse_string; pure (simple_buffer_init (length s) s)

unfoldable pub parse_uint8 : Parser ℕ
parse_uint8 b = if left b == 0 then failed b else parsed (here b 0) (advance 1 b)

-- Any octet but zero is true to the callers.
unfoldable pub parse_boolean : Parser ℕ
parse_boolean b = if left b == 0 then failed b else parsed (here b 0) (advance 1 b)

-- `set_str_256_s` is Nettle's reading of a signed number.
unfoldable pub parse_bignum : {N : Type 0} → (List ℕ → N) → ℕ → Parser N
unfolding parse_string
parse_bignum set_str_256_s limit = do
  digits ← parse_string
  if not (limit == 0) && ltb (add32 limit 1) (length digits)
      then failed
      else pure (set_str_256_s digits)

-- `lookup_atom` is the table that the build generates; 0 is an unknown atom.
unfoldable pub parse_atom : (List ℕ → ℕ) → Parser ℕ
unfolding parse_string
parse_atom lookup_atom = do
  name ← parse_string
  if ltb 64 (length name) then failed else pure (lookup_atom name)

-- `read_uint16` is Nettle's `READ_UINT16`.
unfoldable pub parse_uint16 : (ℕ → ℕ → ℕ) → Parser ℕ
parse_uint16 read_uint16 b =
    if ltb (left b) 2 then failed b else parsed (read_uint16 (here b 0) (here b 1)) (advance 2 b)

unfoldable pub parse_string16 : (ℕ → ℕ → ℕ) → Parser (List ℕ)
unfolding parse_uint16 parse_octets
parse_string16 read_uint16 = do l ← parse_uint16 read_uint16; parse_octets l

unfoldable pub parse_rest : Parser (List ℕ)
parse_rest b = parsed (take (left b) (drop b.pos b.bytes)) (advance (left b) b)

unfoldable pub parse_eod : SimpleBuffer → Bool
parse_eod b = left b == 0
