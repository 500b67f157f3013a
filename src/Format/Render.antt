-- ===== src/Format/Render.antt =====
-- What a format string and its arguments stand for: the bytes in order, with `none` for the bytes
-- that `%r` leaves alone.
use lsh.Prelude.{
  ℕ, zero, suc, ◌+◌, ◌*◌, ◌/◌, ◌%◌, ◌^◌, Bool, List, [], ◌∷◌, ◌++◌, Option, none, some,
  if◌then◌else◌, ◌==◌, ◌&&◌, length, not,
}
use lsh.LshString.{uint32_bytes}
use lsh.LshString.Cells.{Cells, solid}
use lsh.Format.{
  Externals, Options, no_options, is_option, set_option, Arg, int, bytes, lsh_string, cstring,
  reserve, atom, atoms, bignum, format_size_in_decimal, hexchars,
}
use lsh.Format.Length.{bignum_length}

-- The lowest `k` decimal digits.
abbrev pub digits : ℕ → ℕ → List ℕ
digits zero n = []
digits (suc k) n = digits k (n / 10) ++ ((b'0' + n % 10) ∷ [])

abbrev pub hex_digits : List ℕ → List ℕ
hex_digits [] = []
hex_digits (d ∷ s) = hexchars (d % 256 / 16) ∷ hexchars (d % 16) ∷ hex_digits s

abbrev pub length_cells : Bool → ℕ → Cells
length_cells literal l = if literal then [] else solid (uint32_bytes l)

abbrev pub string_cells : Options → List ℕ → Cells
string_cells o s =
    length_cells o.literal (if o.hex then 2 * length s % 2 ^ 32 else length s)
    ++ solid (if o.hex then hex_digits s else s)

abbrev pub gap : ℕ → Cells
gap zero = []
gap (suc l) = none ∷ gap l

module _ (ext : Externals) where
  -- The names of the atoms that are not 0, with commas between them; `n` names were before.
  abbrev pub names_bytes : ℕ → List ℕ → List ℕ
  names_bytes n [] = []
  names_bytes n (a ∷ l) =
      (if a == 0 then [] else if n == 0 then ext.get_atom_name a else b',' ∷ ext.get_atom_name a)
      ++ names_bytes (if a == 0 then n else n + 1) l

  abbrev pub bignum_bytes : Options → ℕ → List ℕ
  bignum_bytes o n = ext.get_str_256 (bignum_length ext o n) n

  -- A directive with its options: `none` is a combination that the code refuses, or `%xz`, whose
  -- length is not the one that is written.
  unfoldable pub render_directive : Options → ℕ → List Arg → Option (Cells × List Arg)
  render_directive o c [] = if c == b'%' then some (some b'%' ∷ [], []) else none
  render_directive o c (int i ∷ r) =
      if c == b'%'
      then some (some b'%' ∷ [], int i ∷ r)
      else if c == b'c'
      then some (some (i % 256) ∷ [], r)
      else if c == b'i'
      then some (
        if o.decimal then solid (digits (format_size_in_decimal i) i) else solid (uint32_bytes i),
        r,
      )
      else none
  render_directive o c (bytes s ∷ r) =
      if c == b'%'
      then some (some b'%' ∷ [], bytes s ∷ r)
      else if c == b's' && (not o.do_free && not o.decimal)
      then some (string_cells o s, r)
      else none
  render_directive o c (lsh_string s ∷ r) =
      if c == b'%'
      then some (some b'%' ∷ [], lsh_string s ∷ r)
      else if c == b'S' && not o.decimal
      then some (string_cells o s, r)
      else none
  render_directive o c (cstring s ∷ r) =
      if c == b'%'
      then some (some b'%' ∷ [], cstring s ∷ r)
      else if c == b'z' && (not o.do_free && (not o.decimal && not o.hex))
      then some (string_cells o s, r)
      else none
  render_directive o c (reserve l ∷ r) =
      if c == b'%'
      then some (some b'%' ∷ [], reserve l ∷ r)
      else if c == b'r' && not o.decimal
      then some (length_cells o.literal l ++ gap l, r)
      else none
  render_directive o c (atom a ∷ r) =
      if c == b'%'
      then some (some b'%' ∷ [], atom a ∷ r)
      else if c == b'a' && (not (a == 0) && not o.decimal)
      then some (length_cells o.literal (ext.get_atom_length a) ++ solid (ext.get_atom_name a), r)
      else none
  render_directive o c (atoms l ∷ r) =
      if c == b'%'
      then some (some b'%' ∷ [], atoms l ∷ r)
      else if c == b'A' && not o.decimal
      then some (length_cells o.literal (length (names_bytes 0 l)) ++ solid (names_bytes 0 l), r)
      else none
  render_directive o c (bignum n ∷ r) =
      if c == b'%'
      then some (some b'%' ∷ [], bignum n ∷ r)
      else if c == b'n' && not o.decimal
      then some (length_cells o.literal (bignum_length ext o n) ++ solid (bignum_bytes o n), r)
      else none

  -- One character: the cells, and the options and arguments that are then in force.
  unfoldable pub render_step :
      ℕ → Option Options → List Arg → Option (Cells × Option Options × List Arg)
  render_step c none args =
      if c == b'%' then some ([], some no_options, args) else some (some (c % 256) ∷ [], none, args)
  render_step c (some o) args =
      if is_option c
      then some ([], some (set_option c o), args)
      else if o.literal && o.decimal
      then none
      else elim (render_directive o c args) [ none ↦ none | some (out, r) ↦ some (out, none, r) ]

  unfoldable pub render : List ℕ → Option Options → List Arg → Option Cells
  render [] none args = some []
  render [] (some o) args = none
  render (c ∷ f) mode args = elim (render_step c mode args) [
    | none ↦ none
    | some (out, mode', args') ↦ elim (render f mode' args') [
      | none ↦ none
      | some more ↦ some (out ++ more)
    ]
  ]
