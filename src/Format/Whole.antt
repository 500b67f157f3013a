-- ===== src/Format/Whole.antt =====
-- ssh_format writes exactly the length that it has allocated, and what its format stands for.
use lsh.Prelude.{
  ℕ, ◌+◌, ◌^◌, ◌<◌, ◌≡◌, refl, false, List, [], ◌∷◌, ◌++◌, Option, none, some, length, arith,
  length-append, returns, inl, inr, Option-cases,
}
use lsh.LshString.Cells.{Cells, fill, fill_at, fill_at-after, fill_at-nil}
use mathlib.Core.Path.{subst}
use lsh.Format.{
  Externals, Options, Arg, int, bytes, lsh_string, cstring, reserve, atom, atoms, bignum,
}
use lsh.Format.Length.{length_step, vformat_length, ssh_vformat_length}
use lsh.Format.Write.{directive_write, write_step, vformat_write, ssh_vformat_write, ssh_format}
use lsh.Format.Render.{render_directive, render_step, render}
use lsh.Format.Pieces.{
  Fits, put_char-Writes, format_length-Writes, format_string-Writes, write_reserve-Writes,
  write_atom-Writes, write_bignum-Writes, Fits-rest, Fits-front,
}
use lsh.Format.Names.{write_atoms-Writes}
use lsh.Format.Decimal.{write_decimal-Writes}
use lsh.Format.Agree.{directive_length-render}

module _ (ext : Externals) where
  directive_write-render :
      (o : Options) (c : ℕ) (args r : List Arg) (out : Cells) (buffer : List ℕ) (pos : ℕ)
      → render_directive ext o c args ≡ some (out, r)
      → Fits buffer pos out
      → directive_write ext o c args buffer pos
        ≡ returns (fill_at buffer pos out, pos + length out, r)
  unfolding render_directive directive_write
  directive_write-render o c [] r out buffer pos e f =
      ground (arith, put_char-Writes buffer pos b'%')
  directive_write-render o c (int i ∷ s) r out buffer pos e f = ground (
    arith,
    put_char-Writes buffer pos b'%',
    put_char-Writes buffer pos i,
    write_decimal-Writes buffer pos i,
    format_length-Writes false buffer pos i,
  )
  directive_write-render o c (bytes s ∷ t) r out buffer pos e f =
      ground (arith, put_char-Writes buffer pos b'%', format_string-Writes o buffer pos s)
  directive_write-render o c (lsh_string s ∷ t) r out buffer pos e f =
      ground (arith, put_char-Writes buffer pos b'%', format_string-Writes o buffer pos s)
  directive_write-render o c (cstring s ∷ t) r out buffer pos e f =
      ground (arith, put_char-Writes buffer pos b'%', format_string-Writes o buffer pos s)
  directive_write-render o c (reserve l ∷ t) r out buffer pos e f =
      ground (arith, put_char-Writes buffer pos b'%', write_reserve-Writes o buffer pos l)
  directive_write-render o c (atom a ∷ t) r out buffer pos e f =
      ground (arith, put_char-Writes buffer pos b'%', write_atom-Writes ext o buffer pos a)
  directive_write-render o c (atoms l ∷ t) r out buffer pos e f =
      ground (arith, put_char-Writes buffer pos b'%', write_atoms-Writes ext o.literal l buffer pos)
  directive_write-render o c (bignum n ∷ t) r out buffer pos e f =
      ground (arith, put_char-Writes buffer pos b'%', write_bignum-Writes ext o buffer pos n)

  length_step-render :
      (c : ℕ) (mode mode' : Option Options) (args args' : List Arg) (out : Cells) (total : ℕ)
      → render_step ext c mode args ≡ some (out, mode', args')
      → total + length out < 2 ^ 32
      → length_step ext c mode args total
        ≡ returns (record { mode = mode'; args = args'; total = total + length out })
  unfolding render_step length_step
  length_step-render c none mode' args args' out total e h = ground arith
  length_step-render c (some o) mode' args args' out total e h =
      elim (Option-cases (render_directive ext o c args)) [
        | inl refused ↦ ground arith
        | inr ((out', r), given) ↦ ground (arith, directive_length-render ext o c args r out' given)
      ]

  write_step-render :
      (c : ℕ) (mode mode' : Option Options) (args args' : List Arg) (out : Cells) (buffer : List ℕ)
      (pos : ℕ)
      → render_step ext c mode args ≡ some (out, mode', args')
      → Fits buffer pos out
      → write_step ext c mode args buffer pos
        ≡ returns (record {
          mode = mode';
          args = args';
          buffer = fill_at buffer pos out;
          pos = pos + length out;
        })
  unfolding render_step write_step
  write_step-render c none mode' args args' out buffer pos e f =
      ground (arith, fill_at-nil buffer pos, put_char-Writes buffer pos c)
  write_step-render c (some o) mode' args args' out buffer pos e f =
      elim (Option-cases (render_directive ext o c args)) [
        | inl refused ↦ ground (arith, fill_at-nil buffer pos)
        | inr ((out', r), given) ↦
            ground (
              arith,
              fill_at-nil buffer pos,
              directive_write-render o c args r out' buffer pos given,
            )
      ]

  -- The rest of a format, behind its first character.
  vformat_length-render :
      (f : List ℕ) (mode : Option Options) (args : List Arg) (out : Cells) (total : ℕ)
      → render ext f mode args ≡ some out
      → total + length out < 2 ^ 32
      → vformat_length ext f mode args total ≡ returns (total + length out)
  unfolding render vformat_length
  vformat_length-render [] none args out total e h = ground arith
  vformat_length-render [] (some o) args out total e h = ground arith
  vformat_length-render (c ∷ f) mode args out total e h =
      elim (Option-cases (render_step ext c mode args)) [
        | inl refused ↦ ground arith
        | inr ((front, mode', args'), first) ↦ elim (Option-cases (render ext f mode' args')) [
          | inl refused ↦ ground arith
          | inr (back, later) ↦ ground (
            arith,
            length-append front back,
            length_step-render c mode mode' args args' front total first,
            vformat_length-render f mode' args' back (total + length front) later,
          )
        ]
      ]

  render-cons :
      (c : ℕ) (f : List ℕ) (mode mode' : Option Options) (args args' : List Arg)
      (front back out : Cells)
      → render_step ext c mode args ≡ some (front, mode', args')
      → render ext f mode' args' ≡ some back
      → render ext (c ∷ f) mode args ≡ some out
      → out ≡ front ++ back
  unfolding render
  render-cons c f mode mode' args args' front back out first later e = ground arith

  -- The output of a character, with that of the characters behind it.
  vformat_write-cons :
      (c : ℕ) (f : List ℕ) (mode mode' : Option Options) (args args' : List Arg)
      (front back : Cells) (buffer : List ℕ) (pos : ℕ)
      → write_step ext c mode args buffer pos
        ≡ returns (record {
          mode = mode';
          args = args';
          buffer = fill_at buffer pos front;
          pos = pos + length front;
        })
      → vformat_write ext f mode' args' (fill_at buffer pos front) (pos + length front)
        ≡ returns (
          fill_at (fill_at buffer pos front) (pos + length front) back,
          pos + length front + length back,
        )
      → Fits buffer pos (front ++ back)
      → vformat_write ext (c ∷ f) mode args buffer pos
        ≡ returns (fill_at buffer pos (front ++ back), pos + length (front ++ back))
  unfolding vformat_write
  vformat_write-cons c f mode mode' args args' front back buffer pos first later (room, small) =
      ground (
        arith,
        length-append front back,
        fill_at-after buffer pos (pos + length front) front back refl,
      )

  vformat_write-both :
      (c : ℕ) (f : List ℕ) (mode mode' : Option Options) (args args' : List Arg)
      (front back : Cells) (buffer : List ℕ) (pos : ℕ)
      → render_step ext c mode args ≡ some (front, mode', args')
      → (Fits (fill_at buffer pos front) (pos + length front) back
          → vformat_write ext f mode' args' (fill_at buffer pos front) (pos + length front)
            ≡ returns (
              fill_at (fill_at buffer pos front) (pos + length front) back,
              pos + length front + length back,
            ))
      → Fits buffer pos (front ++ back)
      → vformat_write ext (c ∷ f) mode args buffer pos
        ≡ returns (fill_at buffer pos (front ++ back), pos + length (front ++ back))
  vformat_write-both c f mode mode' args args' front back buffer pos first later fits =
      vformat_write-cons c f mode mode' args args' front back buffer pos
        (write_step-render c mode mode' args args' front buffer pos first
          (Fits-front buffer pos front back fits))
        (later (Fits-rest buffer pos front back fits)) fits

  vformat_write-render :
      (f : List ℕ) (mode : Option Options) (args : List Arg) (out : Cells) (buffer : List ℕ)
      (pos : ℕ)
      → render ext f mode args ≡ some out
      → Fits buffer pos out
      → vformat_write ext f mode args buffer pos
        ≡ returns (fill_at buffer pos out, pos + length out)
  unfolding render vformat_write
  vformat_write-render [] none args out buffer pos e h = ground (arith, fill_at-nil buffer pos)
  vformat_write-render [] (some o) args out buffer pos e h = ground arith
  vformat_write-render (c ∷ f) mode args out buffer pos e h =
      elim (Option-cases (render_step ext c mode args)) [
        | inl refused ↦ ground arith
        | inr ((front, mode', args'), first) ↦ elim (Option-cases (render ext f mode' args')) [
          | inl refused ↦ ground arith
          | inr (back, later) ↦
              rw (render-cons c f mode mode' args args' front back out first later e) (
                vformat_write-both c f mode mode' args args' front back buffer pos first
                  (vformat_write-render f mode' args' back (fill_at buffer pos front)
                    (pos + length front) later)
                  (subst (Fits buffer pos)
                    (render-cons c f mode mode' args args' front back out first later e) h))
        ]
      ]

  -- Where a format and its arguments have a rendering of less than 2^32 bytes, ssh_format returns it:
  -- the string that it allocates has just its length, no assertion fails, and every byte is
  -- written, other than those that `%r` reserves, which keep the contents of the new string.
  pub ssh_format-render :
      (fresh : ℕ → List ℕ) (f : List ℕ) (args : List Arg) (out : Cells)
      → ((n : ℕ) → length (fresh n) ≡ n)
      → render ext f none args ≡ some out
      → length out < 2 ^ 32
      → ssh_format ext fresh f args ≡ returns (fill out (fresh (length out)))
  unfolding ssh_format ssh_vformat_length ssh_vformat_write
  ssh_format-render fresh f args out sized e small = ground (
    arith,
    vformat_length-render f none args out 0 e (omega arith),
    vformat_write-render f none args out (fresh (length out)) 0 e
        (omega (arith, sized (length out)), omega (arith, sized (length out))),
  )
