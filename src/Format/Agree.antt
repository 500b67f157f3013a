-- ===== src/Format/Agree.antt =====
-- The two interpreters of a format string agree with what it stands for.
use lsh.Prelude.{
  ℕ, ◌+◌, ◌-◌, ◌*◌, ◌%◌, ◌^◌, ◌≡◌, refl, Bool, true, false, List, [], ◌∷◌, ◌++◌, some,
  if◌then◌else◌, ◌==◌, length, arith, length-append, returns,
}
use lsh.LshString.Cells.{Cells, solid, length-solid}
use lsh.Format.{
  Externals, Options, Arg, int, bytes, lsh_string, cstring, reserve, atom, atoms, bignum,
  format_size_in_decimal,
}
use lsh.Format.Length.{field_length, string_length, names_length, bignum_length, directive_length}
use lsh.Format.Render.{
  digits, hex_digits, length_cells, string_cells, gap, names_bytes, bignum_bytes, render_directive,
}
use lsh.Format.Pieces.{length-gap}
use lsh.Format.Decimal.{length-digits}

length-length_cells :
    (literal : Bool) (l : ℕ) → length (length_cells literal l) ≡ (if literal then 0 else 4)
length-length_cells true l = refl
length-length_cells false l = refl

length-hex_digits : (s : List ℕ) → length (hex_digits s) ≡ length s + length s
length-hex_digits [] = omega arith
length-hex_digits (d ∷ s) = omega (arith, length-hex_digits s)

length-string_cells :
    (o : Options) (s : List ℕ)
    → o.decimal ≡ false
    → length (string_cells o s) ≡ string_length o (length s)
unfolding string_length field_length
length-string_cells o s e = ground (
  arith,
  length-append (length_cells o.literal (if o.hex then 2 * length s % 2 ^ 32 else length s))
      (solid (if o.hex then hex_digits s else s)),
  length-solid (hex_digits s),
  length-solid s,
  length-hex_digits s,
)

counted :
    (literal : Bool) (l : ℕ) (s : List ℕ)
    → length (length_cells literal l ++ solid s) ≡ length s + (if literal then 0 else 4)
counted literal l s = ground (
  arith,
  length-append (length_cells literal l) (solid s),
  length-length_cells literal l,
  length-solid s,
)

module _ (ext : Externals) where
  -- The bytes of one name that is not unknown.
  abbrev part : ℕ → ℕ → List ℕ
  part n a = if n == 0 then ext.get_atom_name a else b',' ∷ ext.get_atom_name a

  length-names_bytes :
      (n : ℕ) (l : List ℕ) → length (names_bytes ext n l) + (n - 1) ≡ names_length ext n l
  unfolding names_length
  length-names_bytes n [] = omega arith
  length-names_bytes n (a ∷ l) = ground (
    arith,
    length-names_bytes n l,
    length-names_bytes (n + 1) l,
    ext.length-name a,
    length-append (part n a) (names_bytes ext (n + 1) l),
  )

  pub directive_length-render :
      (o : Options) (c : ℕ) (args r : List Arg) (out : Cells)
      → render_directive ext o c args ≡ some (out, r)
      → directive_length ext o c args ≡ returns (length out, r)
  unfolding render_directive directive_length
  directive_length-render o c [] r out e = ground arith
  directive_length-render o c (int i ∷ s) r out e = ground (
    arith,
    length-digits (format_size_in_decimal i) i,
    length-solid (digits (format_size_in_decimal i) i),
  )
  directive_length-render o c (bytes s ∷ t) r out e = ground (arith, length-string_cells o s)
  directive_length-render o c (lsh_string s ∷ t) r out e = ground (arith, length-string_cells o s)
  directive_length-render o c (cstring s ∷ t) r out e =
      unfold string_length in ground (arith, length-string_cells o s)
  directive_length-render o c (reserve l ∷ t) r out e = ground (
    arith,
    length-append (length_cells o.literal l) (gap l),
    length-length_cells o.literal l,
    length-gap l,
  )
  directive_length-render o c (atom a ∷ t) r out e =
      unfold field_length in
      ground
        (arith, counted o.literal (ext.get_atom_length a) (ext.get_atom_name a), ext.length-name a)
  directive_length-render o c (atoms l ∷ t) r out e = ground (
    arith,
    counted o.literal (length (names_bytes ext 0 l)) (names_bytes ext 0 l),
    length-names_bytes 0 l,
  )
  directive_length-render o c (bignum n ∷ t) r out e = ground (
    arith,
    counted o.literal (bignum_length ext o n) (bignum_bytes ext o n),
    ext.length-get_str_256 (bignum_length ext o n) n,
  )
