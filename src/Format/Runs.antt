-- ===== src/Format/Runs.antt =====
-- format.c on concrete arguments: a small table of names, and new strings that hold zeros.
use lsh.Prelude.{
  ℕ, zero, suc, ◌+◌, ◌-◌, ◌^◌, ◌<◌, ◌≤◌, ◌≡◌, refl, ap, List, [], ◌∷◌, ◌++◌, some, none, arith,
  length, returns, aborted, if◌then◌else◌, ◌==◌,
}
use lsh.LshString.Cells.{solid, fill_at}
use lsh.Parse.{SimpleBuffer, parse_string}
use lsh.Parse.Cursor.{View, Agrees}
use lsh.Format.{
  Externals, Arg, int, cstring, atoms, reserve, bytes, format_size_in_decimal, decimal_loop,
  is_option, set_option,
}
use lsh.Format.Render.{render, render_step, render_directive, digits}
use lsh.Format.Write.{ssh_format, write_decimal}
use lsh.Format.Whole.{ssh_format-render}
use lsh.Format.Decimal.{write_decimal-value, decimal_value}
use lsh.Format.Packets.{parse_string-ssh_format, string_bytes}
use lsh.Format.Hexadecimal.{ssh_format-hex_aborts}

abbrev pub zeros : ℕ → List ℕ
zeros zero = []
zeros (suc n) = 0 ∷ zeros n

pub length-zeros : (n : ℕ) → length (zeros n) ≡ n
length-zeros zero = refl
length-zeros (suc n) = ap suc (length-zeros n)

abbrev name : ℕ → List ℕ
name a = if a == 1 then b'n' ∷ b'o' ∷ b'n' ∷ b'e' ∷ [] else b'z' ∷ b'l' ∷ b'i' ∷ b'b' ∷ []

-- Numbers below 256, as the name table and the bignum library would give them.
abbrev pub small_externals : Externals
small_externals = record {
  get_atom_length = λ a. length (name a);
  get_atom_name = name;
  sizeinbase_256_u = λ n. 1;
  sizeinbase_256_s = λ n. 1;
  get_str_256 = λ size n. zeros size;
  length-name = λ a. refl;
  length-get_str_256 = λ size n. length-zeros size;
}

-- `%c%i%A%r` of a message number, a 32-bit number, two names and two reserved bytes.
abbrev format_example : List ℕ
format_example = b'%' ∷ b'c' ∷ b'%' ∷ b'i' ∷ b'%' ∷ b'A' ∷ b'%' ∷ b'r' ∷ []

abbrev args_example : List Arg
args_example = int 20 ∷ int 258 ∷ atoms (1 ∷ 0 ∷ 2 ∷ []) ∷ reserve 2 ∷ []

render_example :
    render small_externals format_example none args_example
    ≡ some (
        solid (
          20 ∷ 0 ∷ 0 ∷ 1 ∷ 2 ∷ 0 ∷ 0 ∷ 0 ∷ 9 ∷ b'n' ∷ b'o' ∷ b'n' ∷ b'e' ∷ b',' ∷ b'z' ∷ b'l' ∷ b'i'
          ∷ b'b' ∷ 0 ∷ 0 ∷ 0 ∷ 2 ∷ [])
        ++ (none ∷ none ∷ []))
unfolding render render_step render_directive is_option set_option
render_example = refl

ssh_format-render_example :
    ssh_format small_externals zeros format_example args_example
    ≡ returns (
        20 ∷ 0 ∷ 0 ∷ 1 ∷ 2 ∷ 0 ∷ 0 ∷ 0 ∷ 9 ∷ b'n' ∷ b'o' ∷ b'n' ∷ b'e' ∷ b',' ∷ b'z' ∷ b'l' ∷ b'i'
        ∷ b'b' ∷ 0 ∷ 0 ∷ 0 ∷ 2 ∷ 0 ∷ 0 ∷ [])
ssh_format-render_example =
    ssh_format-render small_externals zeros format_example args_example
      (solid (
          20 ∷ 0 ∷ 0 ∷ 1 ∷ 2 ∷ 0 ∷ 0 ∷ 0 ∷ 9 ∷ b'n' ∷ b'o' ∷ b'n' ∷ b'e' ∷ b',' ∷ b'z' ∷ b'l' ∷ b'i'
          ∷ b'b' ∷ 0 ∷ 0 ∷ 0 ∷ 2 ∷ [])
        ++ (none ∷ none ∷ []))
      length-zeros render_example (omega arith)

write_decimal-value_example :
    (write_decimal (zeros 6) 1 4096
      ≡ returns (
        fill_at (zeros 6) 1 (solid (digits (format_size_in_decimal 4096) 4096)),
        1 + format_size_in_decimal 4096,
      ))
    × (decimal_value 0 (digits (format_size_in_decimal 4096) 4096) ≡ 4096)
    × (0 < 4096 → 10 ^ (format_size_in_decimal 4096 - 1) ≤ 4096)
unfolding format_size_in_decimal decimal_loop
write_decimal-value_example =
    write_decimal-value (zeros 6) 1 4096 (omega arith) (omega arith) (omega arith)

abbrev packet : SimpleBuffer
packet = record { capacity = 9; pos = 1; bytes = 7 ∷ 0 ∷ 0 ∷ 0 ∷ 2 ∷ b'o' ∷ b'k' ∷ 0 ∷ 9 ∷ [] }

packet-View : View packet (string_bytes (b'o' ∷ b'k' ∷ []) ++ (0 ∷ 9 ∷ []))
packet-View = record { beyond = []; at = refl; room = refl; small = omega arith }

parse_string-ssh_format_example :
    (ssh_format small_externals zeros (b'%' ∷ b's' ∷ []) (bytes (b'o' ∷ b'k' ∷ []) ∷ [])
      ≡ returns (string_bytes (b'o' ∷ b'k' ∷ [])))
    × Agrees (parse_string packet) (some (b'o' ∷ b'k' ∷ [], 0 ∷ 9 ∷ []))
parse_string-ssh_format_example =
    parse_string-ssh_format small_externals zeros (b'o' ∷ b'k' ∷ []) (0 ∷ 9 ∷ []) packet
      length-zeros (omega arith) packet-View

ssh_format-hex_aborts_example :
    ssh_format small_externals zeros (b'%' ∷ b'l' ∷ b'x' ∷ b'z' ∷ []) (cstring (b'a' ∷ []) ∷ [])
    ≡ aborted
ssh_format-hex_aborts_example =
    ssh_format-hex_aborts small_externals zeros (b'a' ∷ []) length-zeros (omega arith) (omega arith)
