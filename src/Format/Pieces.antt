-- ===== src/Format/Pieces.antt =====
-- Each writer of format.c writes its cells and moves the position behind them.
use lsh.Prelude.{
  ℕ, zero, suc, ◌+◌, ◌*◌, ◌/◌, ◌%◌, ◌^◌, ◌<◌, ◌≤◌, ◌≡◌, refl, sym, ap, ◌∙◌, Bool, true, false, List,
  [], ◌∷◌, ◌++◌, some, if◌then◌else◌, length, arith, length-append, Run, returns, then_run, add32,
}
use lsh.LshString.{uint32_bytes, lsh_string_putc, lsh_string_write, lsh_string_write_uint32}
use lsh.LshString.Cells.{
  Cells, solid, fill, fill_at, length-solid, length-fill_at, fill_at-nil, fill_at-after,
  lsh_string_putc-room, lsh_string_write-room, lsh_string_write_uint32-room,
}
use lsh.Format.{
  Externals, Options, hexchars, put_octet, format_hex, format_length, format_raw, format_string,
}
use lsh.Format.Length.{bignum_length}
use lsh.Format.Write.{put_char, write_reserve, write_atom, write_bignum}
use lsh.Format.Render.{hex_digits, length_cells, string_cells, gap, bignum_bytes}

-- The cells fit into the string, whose length is a `uint32_t`.
abbrev pub Fits : List ℕ → ℕ → Cells → Type 0
Fits buffer pos out = (pos + length out ≤ length buffer) × (length buffer < 2 ^ 32)

abbrev pub Writes : Run (List ℕ × ℕ) → List ℕ → ℕ → Cells → Type 0
Writes m buffer pos out = m ≡ returns (fill_at buffer pos out, pos + length out)

-- Two writers in a row.
pub Writes-then :
    (buffer : List ℕ) (pos : ℕ) (xs ys : Cells) (m : Run (List ℕ × ℕ))
    (f : List ℕ → ℕ → Run (List ℕ × ℕ))
    → Fits buffer pos (xs ++ ys)
    → Writes m buffer pos xs
    → Writes
        (f (fill_at buffer pos xs) (pos + length xs))
        (fill_at buffer pos xs)
        (pos + length xs)
        ys
    → Writes (then_run m λ (b, p). f b p) buffer pos (xs ++ ys)
Writes-then buffer pos xs ys m f (room, small) first second = rw first (
    second
    ∙ rw
        (fill_at-after buffer pos (pos + length xs) xs ys refl (omega (arith, length-append xs ys)))
        (ap {A = ℕ} (λ p. returns (fill_at buffer pos (xs ++ ys), p))
          (omega (arith, length-append xs ys))))

-- The position behind a write, which does not wrap.
pub behind :
    (buffer : List ℕ) (pos : ℕ) (out : Cells) (n : ℕ)
    → Fits buffer pos out
    → n ≡ length out
    → add32 pos n ≡ pos + length out
behind buffer pos out n (room, small) e = omega arith

-- A checked write of all the cells, with the position moved by their number.
pub written :
    (buffer : List ℕ) (pos : ℕ) (out : Cells) (n : ℕ) (m : Run (List ℕ))
    → Fits buffer pos out
    → n ≡ length out
    → m ≡ returns (fill_at buffer pos out)
    → Writes (then_run m λ b. returns (b, add32 pos n)) buffer pos out
written buffer pos out n m fits e h =
    rw h (ap {A = ℕ} (λ p. returns (fill_at buffer pos out, p)) (behind buffer pos out n fits e))

pub put_octet-Writes :
    (buffer : List ℕ) (pos c : ℕ)
    → Fits buffer pos (some c ∷ [])
    → Writes (put_octet buffer pos c) buffer pos (some c ∷ [])
unfolding put_octet
put_octet-Writes buffer pos c fits =
    written buffer pos (some c ∷ []) 1 (lsh_string_putc buffer pos c) fits refl
      (lsh_string_putc-room buffer pos c (omega (arith, fits.0)))

pub put_char-Writes :
    (buffer : List ℕ) (pos c : ℕ)
    → Fits buffer pos (some (c % 256) ∷ [])
    → Writes (put_char buffer pos c) buffer pos (some (c % 256) ∷ [])
unfolding put_char
put_char-Writes buffer pos c fits = put_octet-Writes buffer pos (c % 256) fits

pub nothing : (buffer : List ℕ) (pos : ℕ) → Writes (returns (buffer, pos)) buffer pos []
nothing buffer pos =
    rw (fill_at-nil buffer pos) (ap {A = ℕ} (λ p. returns (buffer, p)) (omega arith))

pub format_length-Writes :
    (literal : Bool) (buffer : List ℕ) (pos l : ℕ)
    → Fits buffer pos (length_cells literal l)
    → Writes (format_length literal buffer pos l) buffer pos (length_cells literal l)
unfolding format_length
format_length-Writes true buffer pos l fits = nothing buffer pos
format_length-Writes false buffer pos l fits =
    written buffer pos (solid (uint32_bytes l)) 4 (lsh_string_write_uint32 buffer pos l) fits refl
      (lsh_string_write_uint32-room buffer pos l fits.0)

pub raw-Writes :
    (buffer : List ℕ) (pos n : ℕ) (s : List ℕ)
    → n ≡ length s
    → Fits buffer pos (solid s)
    → Writes
        (then_run (lsh_string_write buffer pos s) λ b. returns (b, add32 pos n))
        buffer
        pos
        (solid s)
raw-Writes buffer pos n s e fits =
    written buffer pos (solid s) n (lsh_string_write buffer pos s) fits (e ∙ sym (length-solid s))
      (lsh_string_write-room buffer pos s (omega (arith, fits.0, length-solid s)))

format_raw-Writes :
    (buffer : List ℕ) (pos : ℕ) (s : List ℕ)
    → Fits buffer pos (solid s)
    → Writes (format_raw buffer pos s) buffer pos (solid s)
unfolding format_raw
format_raw-Writes buffer pos s fits = raw-Writes buffer pos (length s) s refl fits

-- The part of the string that is left has room for the rest.
pub Fits-rest :
    (buffer : List ℕ) (pos : ℕ) (xs ys : Cells)
    → Fits buffer pos (xs ++ ys)
    → Fits (fill_at buffer pos xs) (pos + length xs) ys
Fits-rest buffer pos xs ys (room, small) = (
  omega (arith, length-append xs ys, length-fill_at buffer pos xs),
  omega (arith, length-fill_at buffer pos xs),
)

pub Fits-front :
    (buffer : List ℕ) (pos : ℕ) (xs ys : Cells) → Fits buffer pos (xs ++ ys) → Fits buffer pos xs
Fits-front buffer pos xs ys (room, small) = (omega (arith, length-append xs ys), small)

-- A writer that starts with a writer of its own.
pub sequence :
    (buffer : List ℕ) (pos : ℕ) (xs ys : Cells) (m : Run (List ℕ × ℕ))
    (f : List ℕ → ℕ → Run (List ℕ × ℕ))
    → Fits buffer pos (xs ++ ys)
    → (Fits buffer pos xs → Writes m buffer pos xs)
    → ((b : List ℕ) (p : ℕ) → Fits b p ys → Writes (f b p) b p ys)
    → Writes (then_run m λ (b, p). f b p) buffer pos (xs ++ ys)
sequence buffer pos xs ys m f fits first second =
    Writes-then buffer pos xs ys m f fits (first (Fits-front buffer pos xs ys fits))
      (second (fill_at buffer pos xs) (pos + length xs) (Fits-rest buffer pos xs ys fits))

format_hex-Writes :
    (buffer : List ℕ) (pos : ℕ) (s : List ℕ)
    → Fits buffer pos (solid (hex_digits s))
    → Writes (format_hex buffer pos s) buffer pos (solid (hex_digits s))
unfolding format_hex
format_hex-Writes buffer pos [] fits = nothing buffer pos
format_hex-Writes buffer pos (d ∷ s) fits =
    sequence buffer pos (some (hexchars (d % 256 / 16)) ∷ [])
      (some (hexchars (d % 16)) ∷ solid (hex_digits s)) _ _ fits (put_octet-Writes buffer pos _)
      λ b p fits'.
        sequence b p (some (hexchars (d % 16)) ∷ []) (solid (hex_digits s)) _ _ fits'
          (put_octet-Writes b p _) λ b' p'. format_hex-Writes b' p' s

hex_or_raw-Writes :
    (hex : Bool) (buffer : List ℕ) (pos : ℕ) (s : List ℕ)
    → Fits buffer pos (solid (if hex then hex_digits s else s))
    → Writes
        (if hex then format_hex buffer pos s else format_raw buffer pos s)
        buffer
        pos
        (solid (if hex then hex_digits s else s))
hex_or_raw-Writes true buffer pos s fits = format_hex-Writes buffer pos s fits
hex_or_raw-Writes false buffer pos s fits = format_raw-Writes buffer pos s fits

pub format_string-Writes :
    (o : Options) (buffer : List ℕ) (pos : ℕ) (s : List ℕ)
    → Fits buffer pos (string_cells o s)
    → Writes (format_string buffer pos s o.literal o.hex) buffer pos (string_cells o s)
unfolding format_string
format_string-Writes o buffer pos s fits =
    sequence buffer pos (length_cells o.literal (if o.hex then 2 * length s % 2 ^ 32 else length s))
      (solid (if o.hex then hex_digits s else s)) _ _ fits
      (format_length-Writes o.literal buffer pos
        (if o.hex then 2 * length s % 2 ^ 32 else length s))
      λ b p. hex_or_raw-Writes o.hex b p s

fill-gap : (l : ℕ) (s : List ℕ) → fill (gap l) s ≡ s
fill-gap zero s = refl
fill-gap (suc l) [] = refl
fill-gap (suc l) (y ∷ s) = ap (◌∷◌ y) (fill-gap l s)

fill_at-gap : (s : List ℕ) (p l : ℕ) → fill_at s p (gap l) ≡ s
fill_at-gap s zero l = fill-gap l s
fill_at-gap [] (suc p) l = refl
fill_at-gap (y ∷ s) (suc p) l = ap (◌∷◌ y) (fill_at-gap s p l)

pub length-gap : (l : ℕ) → length (gap l) ≡ l
length-gap zero = refl
length-gap (suc l) = ap suc (length-gap l)

gap-Writes :
    (buffer : List ℕ) (pos l : ℕ)
    → Fits buffer pos (gap l)
    → Writes (returns (buffer, add32 pos l)) buffer pos (gap l)
gap-Writes buffer pos l fits =
    rw (fill_at-gap buffer pos l) (
      ap {A = ℕ} (λ p. returns (buffer, p)) (behind buffer pos (gap l) l fits (sym (length-gap l))))

pub write_reserve-Writes :
    (o : Options) (buffer : List ℕ) (pos l : ℕ)
    → Fits buffer pos (length_cells o.literal l ++ gap l)
    → Writes (write_reserve o buffer pos l) buffer pos (length_cells o.literal l ++ gap l)
unfolding write_reserve
write_reserve-Writes o buffer pos l fits =
    sequence buffer pos (length_cells o.literal l) (gap l) _ _ fits
      (format_length-Writes o.literal buffer pos l) λ b p. gap-Writes b p l

module _ (ext : Externals) where
  pub write_atom-Writes :
      (o : Options) (buffer : List ℕ) (pos a : ℕ)
      → Fits buffer pos
          (length_cells o.literal (ext.get_atom_length a) ++ solid (ext.get_atom_name a))
      → Writes
          (write_atom ext o buffer pos a)
          buffer
          pos
          (length_cells o.literal (ext.get_atom_length a) ++ solid (ext.get_atom_name a))
  unfolding write_atom
  write_atom-Writes o buffer pos a fits =
      sequence buffer pos (length_cells o.literal (ext.get_atom_length a))
        (solid (ext.get_atom_name a)) _ _ fits
        (format_length-Writes o.literal buffer pos (ext.get_atom_length a))
        λ b p.
          raw-Writes b p (ext.get_atom_length a) (ext.get_atom_name a) (sym (ext.length-name a))

  pub write_bignum-Writes :
      (o : Options) (buffer : List ℕ) (pos n : ℕ)
      → Fits buffer pos
          (length_cells o.literal (bignum_length ext o n) ++ solid (bignum_bytes ext o n))
      → Writes
          (write_bignum ext o buffer pos n)
          buffer
          pos
          (length_cells o.literal (bignum_length ext o n) ++ solid (bignum_bytes ext o n))
  unfolding write_bignum
  write_bignum-Writes o buffer pos n fits =
      sequence buffer pos (length_cells o.literal (bignum_length ext o n))
        (solid (bignum_bytes ext o n)) _ _ fits
        (format_length-Writes o.literal buffer pos (bignum_length ext o n))
        λ b p.
          raw-Writes b p (bignum_length ext o n) (bignum_bytes ext o n)
            (sym (ext.length-get_str_256 (bignum_length ext o n) n))
