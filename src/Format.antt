-- ===== src/Format.antt =====
-- src/format.c: the format strings of ssh_format, their options and arguments, and the decimal and
-- hexadecimal digits. Its children are the two interpreters of a format string.
pub mod Length
pub mod Write
pub mod Render
pub mod Pieces
pub mod Names
pub mod Decimal
pub mod Agree
pub mod Whole
pub mod Packets
pub mod Hexadecimal
pub mod Runs
use lsh.Prelude.{
  ℕ, zero, suc, ◌+◌, ◌-◌, ◌*◌, ◌/◌, ◌%◌, ◌^◌, ◌≡◌, Bool, true, false, ◌||◌, List, [], ◌∷◌, Option,
  none, some, if◌then◌else◌, ltb, leb, ◌==◌, length, get_or, add32, Run, aborted, returns, then_run,
}
use lsh.LshString.{lsh_string_putc, lsh_string_write, lsh_string_write_uint32}

infixl 5 ◌>>=◌
abbrev pub ◌>>=◌ : {A B : Type 0} → Run A → (A → Run B) → Run B
◌>>=◌ = then_run

-- What format.c takes from the table of names that the build generates, and from Nettle: the size
-- of a number in bytes, unsigned and signed, and its bytes in a field of a given size.
pub record Externals : Type 0 where
  pub get_atom_length : ℕ → ℕ
  pub get_atom_name : ℕ → List ℕ
  pub sizeinbase_256_u : ℕ → ℕ
  pub sizeinbase_256_s : ℕ → ℕ
  pub get_str_256 : ℕ → ℕ → List ℕ
  pub length-name : (atom : ℕ) → length (get_atom_name atom) ≡ get_atom_length atom
  pub length-get_str_256 : (size n : ℕ) → length (get_str_256 size n) ≡ size

pub record Options : Type 0 where
  pub literal : Bool
  pub do_free : Bool
  pub decimal : Bool
  pub hex : Bool
  pub unsigned_form : Bool

abbrev pub no_options : Options
no_options = record {
  literal = false;
  do_free = false;
  decimal = false;
  hex = false;
  unsigned_form = false;
}

-- `f` says that the argument is freed behind the call, which changes nothing that is written.
unfoldable pub is_option : ℕ → Bool
is_option c = c == b'l' || c == b'd' || c == b'f' || c == b'u' || c == b'x'

unfoldable pub set_option : ℕ → Options → Options
set_option c o =
    if c == b'l'
    then record o { literal = true }
    else if c == b'd'
    then record o { decimal = true }
    else if c == b'f'
    then record o { do_free = true }
    else if c == b'u'
    then record o { unsigned_form = true }
    else if c == b'x'
    then record o { hex = true }
    else o

-- The variadic arguments. `bytes` is a length with a pointer to so many bytes.
pub data Arg : Type 0 where
  int : ℕ → Arg
  bytes : List ℕ → Arg
  lsh_string : List ℕ → Arg
  cstring : List ℕ → Arg
  reserve : ℕ → Arg
  atom : ℕ → Arg
  atoms : List ℕ → Arg
  bignum : ℕ → Arg

-- The table of 10^(2^n).
abbrev pub powers : ℕ → ℕ
powers i = get_or (10 ∷ 100 ∷ 10000 ∷ 100000000 ∷ []) i 1

-- The loop over the table, from its end; `rounds` entries are left.
unfoldable pub decimal_loop : ℕ → ℕ → ℕ → ℕ
decimal_loop zero e n = e
decimal_loop (suc i) e n =
    decimal_loop i (if leb (powers i) n then e + 2 ^ i else e)
      (if leb (powers i) n then n / powers i else n)

unfoldable pub format_size_in_decimal : ℕ → ℕ
format_size_in_decimal n = decimal_loop 4 0 n + 1

-- The loop over the digits, from the last; `length` of them are left.
unfoldable pub format_decimal : List ℕ → ℕ → ℕ → ℕ → Run (List ℕ)
format_decimal buffer start zero n = returns buffer
format_decimal buffer start (suc length) n = do
  buffer' ← lsh_string_putc buffer (start + length) (b'0' + n % 10)
  format_decimal buffer' start length (n / 10)

abbrev pub hexchars : ℕ → ℕ
hexchars d = if ltb d 10 then b'0' + d else b'a' + (d - 10)

-- `lsh_string_putc(buffer, pos++, c)`
unfoldable pub put_octet : List ℕ → ℕ → ℕ → Run (List ℕ × ℕ)
put_octet buffer pos c = do buffer' ← lsh_string_putc buffer pos c; returns (buffer', add32 pos 1)

unfoldable pub format_hex : List ℕ → ℕ → List ℕ → Run (List ℕ × ℕ)
format_hex buffer pos [] = returns (buffer, pos)
format_hex buffer pos (d ∷ s) = do
  (buffer', pos') ← put_octet buffer pos (hexchars (d % 256 / 16))
  (buffer'', pos'') ← put_octet buffer' pos' (hexchars (d % 16))
  format_hex buffer'' pos'' s

-- A length field.
unfoldable pub format_length : Bool → List ℕ → ℕ → ℕ → Run (List ℕ × ℕ)
format_length true buffer pos l = returns (buffer, pos)
format_length false buffer pos l = do
  buffer' ← lsh_string_write_uint32 buffer pos l
  returns (buffer', add32 pos 4)

unfoldable pub format_raw : List ℕ → ℕ → List ℕ → Run (List ℕ × ℕ)
format_raw buffer pos s = do
  buffer' ← lsh_string_write buffer pos s
  returns (buffer', add32 pos (length s))

unfoldable pub format_string : List ℕ → ℕ → List ℕ → Bool → Bool → Run (List ℕ × ℕ)
format_string buffer pos s literal hex = do
  (buffer', pos') ←
      format_length literal buffer pos (if hex then 2 * length s % 2 ^ 32 else length s)
  if hex then format_hex buffer' pos' s else format_raw buffer' pos' s
