-- ===== src/Format/Length.antt =====
-- format.c: ssh_vformat_length. The loop is a fold over the characters of the format; between a `%`
-- and its directive the state holds the options read so far. A directive whose argument has another
-- type stops the model. All additions are modulo 2^32, and are made at once for each directive.
use lsh.Prelude.{
  ℕ, ◌+◌, ◌-◌, List, [], ◌∷◌, Option, none, some, if◌then◌else◌, ◌==◌, ◌&&◌, length, add32, Run,
  aborted, returns, then_run, not,
}
use lsh.Format.{
  Externals, Options, no_options, is_option, set_option, Arg, int, bytes, lsh_string, cstring,
  reserve, atom, atoms, bignum, format_size_in_decimal,
}

pub record LengthState : Type 0 where
  pub mode : Option Options
  pub args : List Arg
  pub total : ℕ

-- The length field of a value of `l` bytes: decimal digits and a colon, four bytes, or none.
unfoldable pub field_length : Options → ℕ → ℕ
field_length o l = if o.decimal then format_size_in_decimal l + 1 else if o.literal then 0 else 4

-- A string with its length field; the digits are two for each byte in hexadecimal.
unfoldable pub string_length : Options → ℕ → ℕ
string_length o l = (if o.hex then l + l else l) + field_length o l

module _ (ext : Externals) where
  -- The names of the atoms that are not 0, with the commas between them; `n` names were before.
  unfoldable pub names_length : ℕ → List ℕ → ℕ
  names_length n [] = n - 1
  names_length n (a ∷ l) =
      let rest = names_length (if a == 0 then n else n + 1) l in
      (if a == 0 then 0 else ext.get_atom_length a) + rest

  unfoldable pub bignum_length : Options → ℕ → ℕ
  bignum_length o n =
      if n == 0
      then 0
      else if o.unsigned_form
      then ext.sizeinbase_256_u n
      else ext.sizeinbase_256_s n

  -- The length that a directive adds, and the arguments left.
  unfoldable pub directive_length : Options → ℕ → List Arg → Run (ℕ × List Arg)
  directive_length o c [] = if c == b'%' then returns (1, []) else aborted
  directive_length o c (int i ∷ r) =
      if c == b'%'
      then returns (1, int i ∷ r)
      else if c == b'c'
      then returns (1, r)
      else if c == b'i'
      then returns (if o.decimal then format_size_in_decimal i else 4, r)
      else aborted
  directive_length o c (bytes s ∷ r) =
      if c == b'%'
      then returns (1, bytes s ∷ r)
      else if c == b's'
      then returns (string_length o (length s), r)
      else aborted
  directive_length o c (lsh_string s ∷ r) =
      if c == b'%'
      then returns (1, lsh_string s ∷ r)
      else if c == b'S'
      then returns (string_length o (length s), r)
      else aborted
  directive_length o c (cstring s ∷ r) =
      if c == b'%'
      then returns (1, cstring s ∷ r)
      else if c == b'z'
      then returns (length s + field_length o (length s), r)
      else aborted
  directive_length o c (reserve l ∷ r) =
      if c == b'%'
      then returns (1, reserve l ∷ r)
      else if c == b'r' && not o.decimal
      then returns (l + (if o.literal then 0 else 4), r)
      else aborted
  directive_length o c (atom a ∷ r) =
      if c == b'%'
      then returns (1, atom a ∷ r)
      else if c == b'a' && not (a == 0)
      then returns (ext.get_atom_length a + field_length o (ext.get_atom_length a), r)
      else aborted
  directive_length o c (atoms l ∷ r) =
      if c == b'%'
      then returns (1, atoms l ∷ r)
      else if c == b'A' && not o.decimal
      then returns (names_length 0 l + (if o.literal then 0 else 4), r)
      else aborted
  directive_length o c (bignum n ∷ r) =
      if c == b'%'
      then returns (1, bignum n ∷ r)
      else if c == b'n' && not o.decimal
      then returns (bignum_length o n + (if o.literal then 0 else 4), r)
      else aborted

  -- One character of the format.
  unfoldable pub length_step : ℕ → Option Options → List Arg → ℕ → Run LengthState
  length_step c none args total =
      if c == b'%'
      then returns (record { mode = some no_options; args = args; total = total })
      else returns (record { mode = none; args = args; total = add32 total 1 })
  length_step c (some o) args total =
      if is_option c
      then returns (record { mode = some (set_option c o); args = args; total = total })
      else if o.literal && o.decimal
      then aborted
      else then_run (directive_length o c args)
          λ (l, r). returns (record { mode = none; args = r; total = add32 total l })

  -- The string may not end between a `%` and its directive.
  unfoldable pub vformat_length : List ℕ → Option Options → List Arg → ℕ → Run ℕ
  vformat_length [] none args total = returns total
  vformat_length [] (some o) args total = aborted
  vformat_length (c ∷ f) mode args total =
      then_run (length_step c mode args total) λ s. vformat_length f s.mode s.args s.total

  unfoldable pub ssh_vformat_length : List ℕ → List Arg → Run ℕ
  ssh_vformat_length f args = vformat_length f none args 0
