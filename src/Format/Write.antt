-- ===== src/Format/Write.antt =====
-- format.c: ssh_vformat_write, and ssh_format. The output string is passed from write to write, with
-- the position of the next one; a write out of bounds stops the program.
use lsh.Prelude.{
  ℕ, ◌+◌, ◌%◌, Bool, false, List, [], ◌∷◌, Option, none, some, if◌then◌else◌, ◌==◌, ◌&&◌, add32,
  sub32, Run, aborted, returns, then_run, not,
}
use lsh.LshString.{lsh_string_write, lsh_string_write_uint32}
use lsh.Format.{
  ◌>>=◌, Externals, Options, no_options, is_option, set_option, Arg, int, bytes, lsh_string,
  cstring, reserve, atom, atoms, bignum, format_size_in_decimal, format_decimal, put_octet,
  format_length, format_string,
}
use lsh.Format.Length.{ssh_vformat_length, bignum_length}

pub record WriteState : Type 0 where
  pub mode : Option Options
  pub args : List Arg
  pub buffer : List ℕ
  pub pos : ℕ

-- A directive's output: the string, the position behind it, and the arguments left.
abbrev pub Output : Type 0
Output = Run (List ℕ × ℕ × List Arg)

abbrev pub with_args : List Arg → Run (List ℕ × ℕ) → Output
with_args r m = then_run m λ (buffer, pos). returns (buffer, pos, r)

unfoldable pub put_char : List ℕ → ℕ → ℕ → Run (List ℕ × ℕ)
put_char buffer pos c = put_octet buffer pos (c % 256)

unfoldable pub write_decimal : List ℕ → ℕ → ℕ → Run (List ℕ × ℕ)
write_decimal buffer pos i = do
  buffer' ← format_decimal buffer pos (format_size_in_decimal i) i
  returns (buffer', add32 pos (format_size_in_decimal i))

-- Nothing is written but the length field.
unfoldable pub write_reserve : Options → List ℕ → ℕ → ℕ → Run (List ℕ × ℕ)
write_reserve o buffer pos l = do
  (buffer', pos') ← format_length o.literal buffer pos l
  returns (buffer', add32 pos' l)

module _ (ext : Externals) where
  unfoldable pub write_atom : Options → List ℕ → ℕ → ℕ → Run (List ℕ × ℕ)
  write_atom o buffer pos a = do
    (buffer', pos') ← format_length o.literal buffer pos (ext.get_atom_length a)
    buffer'' ← lsh_string_write buffer' pos' (ext.get_atom_name a)
    returns (buffer'', add32 pos' (ext.get_atom_length a))

  -- The comma in front of a name that is not the first, and the name.
  unfoldable pub write_name : Bool → List ℕ → ℕ → ℕ → Run (List ℕ × ℕ)
  write_name first buffer pos a = do
    (buffer', pos') ← if first then returns (buffer, pos) else put_char buffer pos b','
    buffer'' ← lsh_string_write buffer' pos' (ext.get_atom_name a)
    returns (buffer'', add32 pos' (ext.get_atom_length a))

  unfoldable pub write_names : ℕ → List ℕ → List ℕ → ℕ → Run (List ℕ × ℕ)
  write_names n [] buffer pos = returns (buffer, pos)
  write_names n (a ∷ l) buffer pos =
      then_run (if a == 0 then returns (buffer, pos) else write_name (n == 0) buffer pos a)
        λ (buffer', pos'). write_names (if a == 0 then n else n + 1) l buffer' pos'

  -- The names are written behind the place of the length, and the length last.
  unfoldable pub write_atoms : Bool → List ℕ → List ℕ → ℕ → Run (List ℕ × ℕ)
  write_atoms literal l buffer start = do
    (buffer', pos) ← write_names 0 l buffer (if literal then start else add32 start 4)
    if literal
        then returns (buffer', pos)
        else then_run (lsh_string_write_uint32 buffer' start (sub32 (sub32 pos start) 4))
            λ buffer''. returns (buffer'', pos)

  unfoldable pub write_bignum : Options → List ℕ → ℕ → ℕ → Run (List ℕ × ℕ)
  write_bignum o buffer pos n = do
    (buffer', pos') ← format_length o.literal buffer pos (bignum_length ext o n)
    buffer'' ← lsh_string_write buffer' pos' (ext.get_str_256 (bignum_length ext o n) n)
    returns (buffer'', add32 pos' (bignum_length ext o n))

  unfoldable pub directive_write : Options → ℕ → List Arg → List ℕ → ℕ → Output
  directive_write o c [] buffer pos =
      if c == b'%' then with_args [] (put_char buffer pos b'%') else aborted
  directive_write o c (int i ∷ r) buffer pos =
      if c == b'%'
      then with_args (int i ∷ r) (put_char buffer pos b'%')
      else if c == b'c'
      then with_args r (put_char buffer pos i)
      else if c == b'i'
      then with_args r
          (if o.decimal then write_decimal buffer pos i else format_length false buffer pos i)
      else aborted
  directive_write o c (bytes s ∷ r) buffer pos =
      if c == b'%'
      then with_args (bytes s ∷ r) (put_char buffer pos b'%')
      else if c == b's' && (not o.do_free && not o.decimal)
      then with_args r (format_string buffer pos s o.literal o.hex)
      else aborted
  directive_write o c (lsh_string s ∷ r) buffer pos =
      if c == b'%'
      then with_args (lsh_string s ∷ r) (put_char buffer pos b'%')
      else if c == b'S' && not o.decimal
      then with_args r (format_string buffer pos s o.literal o.hex)
      else aborted
  directive_write o c (cstring s ∷ r) buffer pos =
      if c == b'%'
      then with_args (cstring s ∷ r) (put_char buffer pos b'%')
      else if c == b'z' && (not o.do_free && not o.decimal)
      then with_args r (format_string buffer pos s o.literal o.hex)
      else aborted
  directive_write o c (reserve l ∷ r) buffer pos =
      if c == b'%'
      then with_args (reserve l ∷ r) (put_char buffer pos b'%')
      else if c == b'r' && not o.decimal
      then with_args r (write_reserve o buffer pos l)
      else aborted
  directive_write o c (atom a ∷ r) buffer pos =
      if c == b'%'
      then with_args (atom a ∷ r) (put_char buffer pos b'%')
      else if c == b'a' && (not (a == 0) && not o.decimal)
      then with_args r (write_atom o buffer pos a)
      else aborted
  directive_write o c (atoms l ∷ r) buffer pos =
      if c == b'%'
      then with_args (atoms l ∷ r) (put_char buffer pos b'%')
      else if c == b'A' && not o.decimal
      then with_args r (write_atoms o.literal l buffer pos)
      else aborted
  directive_write o c (bignum n ∷ r) buffer pos =
      if c == b'%'
      then with_args (bignum n ∷ r) (put_char buffer pos b'%')
      else if c == b'n' && not o.decimal
      then with_args r (write_bignum o buffer pos n)
      else aborted

  unfoldable pub write_step : ℕ → Option Options → List Arg → List ℕ → ℕ → Run WriteState
  write_step c none args buffer pos =
      if c == b'%'
      then returns (record { mode = some no_options; args = args; buffer = buffer; pos = pos })
      else then_run (put_char buffer pos c) λ (buffer', pos').
        returns (record { mode = none; args = args; buffer = buffer'; pos = pos' })
  write_step c (some o) args buffer pos =
      if is_option c
      then returns
          (record { mode = some (set_option c o); args = args; buffer = buffer; pos = pos })
      else if o.literal && o.decimal
      then aborted
      else then_run (directive_write o c args buffer pos) λ (buffer', pos', r).
        returns (record { mode = none; args = r; buffer = buffer'; pos = pos' })

  unfoldable pub vformat_write : List ℕ → Option Options → List Arg → List ℕ → ℕ → Run (List ℕ × ℕ)
  vformat_write [] none args buffer pos = returns (buffer, pos)
  vformat_write [] (some o) args buffer pos = aborted
  vformat_write (c ∷ f) mode args buffer pos =
      then_run (write_step c mode args buffer pos) λ s. vformat_write f s.mode s.args s.buffer s.pos

  unfoldable pub ssh_vformat_write : List ℕ → List ℕ → ℕ → List Arg → Run (List ℕ)
  ssh_vformat_write f buffer pos args =
      then_run (vformat_write f none args buffer pos) λ (buffer', _). returns buffer'

  -- `fresh n` is the indeterminate contents of a new string of `n` bytes.
  unfoldable pub ssh_format : (ℕ → List ℕ) → List ℕ → List Arg → Run (List ℕ)
  ssh_format fresh f args =
      then_run (ssh_vformat_length ext f args) λ l. ssh_vformat_write f (fresh l) 0 args
