-- ===== src/Format/Names.antt =====
-- The comma-separated names of `%A`.
use lsh.Prelude.{
  ℕ, ◌+◌, ◌≡◌, refl, sym, ap, Bool, true, false, List, [], ◌∷◌, ◌++◌, some, if◌then◌else◌, ◌==◌,
  length, arith, returns, add32, sub32, Bool-cases, inl, inr,
}
use lsh.LshString.{uint32_bytes}
use lsh.LshString.Cells.{
  Cells, solid, fill_at, length-solid, solid-append, length-fill_at, fill_at-before,
  lsh_string_write_uint32-room,
}
use lsh.Format.{Externals}
use lsh.Format.Write.{write_name, write_names, write_atoms}
use lsh.Format.Render.{length_cells, names_bytes}
use lsh.Format.Pieces.{Fits, Writes, nothing, put_char-Writes, raw-Writes, sequence}

module _ (ext : Externals) where
  name-Writes :
      (first : Bool) (buffer : List ℕ) (pos a : ℕ)
      → Fits buffer pos (solid (if first then ext.get_atom_name a else b',' ∷ ext.get_atom_name a))
      → Writes
          (write_name ext first buffer pos a)
          buffer
          pos
          (solid (if first then ext.get_atom_name a else b',' ∷ ext.get_atom_name a))
  unfolding write_name
  name-Writes true buffer pos a fits =
      raw-Writes buffer pos (ext.get_atom_length a) (ext.get_atom_name a) (sym (ext.length-name a))
        fits
  name-Writes false buffer pos a fits =
      sequence buffer pos (some b',' ∷ []) (solid (ext.get_atom_name a)) _ _ fits
        (put_char-Writes buffer pos b',')
        λ b p.
          raw-Writes b p (ext.get_atom_length a) (ext.get_atom_name a) (sym (ext.length-name a))

  abbrev part : ℕ → ℕ → List ℕ
  part n a = if n == 0 then ext.get_atom_name a else b',' ∷ ext.get_atom_name a

  write_names-Writes :
      (n : ℕ) (l : List ℕ) (buffer : List ℕ) (pos : ℕ)
      → Fits buffer pos (solid (names_bytes ext n l))
      → Writes (write_names ext n l buffer pos) buffer pos (solid (names_bytes ext n l))
  unfolding write_names
  write_names-Writes n [] buffer pos fits = nothing buffer pos
  write_names-Writes n (a ∷ l) buffer pos fits = elim (Bool-cases (a == 0)) [
    | inl unknown ↦
        rw (unknown, write_names) (write_names-Writes n l buffer pos (rw unknown at fits))
    | inr known ↦
        rw (known, write_names)
          (rw (solid-append (part n a) (names_bytes ext (n + 1) l)) (
            sequence buffer pos (solid (part n a)) (solid (names_bytes ext (n + 1) l)) _ _
              (rw (known, solid-append (part n a) (names_bytes ext (n + 1) l)) at fits)
              (name-Writes (n == 0) buffer pos a) λ b p. write_names-Writes (n + 1) l b p))
  ]

  -- The length field is written over its place when the names are there.
  pub write_atoms-Writes :
      (literal : Bool) (l : List ℕ) (buffer : List ℕ) (pos : ℕ)
      → Fits buffer pos
          (length_cells literal (length (names_bytes ext 0 l)) ++ solid (names_bytes ext 0 l))
      → Writes
          (write_atoms ext literal l buffer pos)
          buffer
          pos
          (length_cells literal (length (names_bytes ext 0 l)) ++ solid (names_bytes ext 0 l))
  unfolding write_atoms
  write_atoms-Writes true l buffer pos fits = rw (write_names-Writes 0 l buffer pos fits) refl
  write_atoms-Writes false l buffer pos fits =
      rw (start, write_names-Writes 0 l buffer (pos + 4) inner, total)
        (rw
          (
            lsh_string_write_uint32-room (fill_at buffer (pos + 4) names) pos size
                (omega (arith, fits.0, length-fill_at buffer (pos + 4) names)),
            fill_at-before buffer pos (pos + 4) (solid (uint32_bytes size)) names refl
                (omega (arith, fits.0)),
          )
          (ap {A = ℕ} (λ p. returns (fill_at buffer pos (solid (uint32_bytes size) ++ names), p))
            (omega arith)))
    where
      names : Cells
      names = solid (names_bytes ext 0 l)

      size : ℕ
      size = length (names_bytes ext 0 l)

      start : add32 pos 4 ≡ pos + 4
      start = omega (arith, fits.0, fits.1)

      inner : Fits buffer (pos + 4) names
      inner = (omega (arith, fits.0), fits.1)

      total : sub32 (sub32 (pos + 4 + length names) pos) 4 ≡ size
      total = omega (arith, fits.0, fits.1, length-solid (names_bytes ext 0 l))
