-- ===== src/Format/Decimal.antt =====
-- The decimal digits of `%di`: as many as the number needs, and those of the number.
use lsh.Prelude.{
  ℕ, zero, suc, ◌+◌, ◌-◌, ◌*◌, ◌/◌, ◌%◌, ◌^◌, ◌<◌, ◌≤◌, ◌≡◌, refl, ap, ◌∙◌, List, [], ◌∷◌, ◌++◌,
  some, length, arith, length-append, returns,
}
use native.Mathlib.Numerals.{unary_clauses}
use lsh.LshString.Cells.{
  Cells, solid, fill_at, length-solid, length-fill_at, solid-append, fill_at-nil, fill_at-before,
  lsh_string_putc-room,
}
use lsh.Format.{decimal_loop, format_size_in_decimal, format_decimal}
use lsh.Format.Write.{write_decimal}
use lsh.Format.Render.{digits}
use lsh.Format.Pieces.{Fits, Writes, written}

pub length-digits : (k n : ℕ) → length (digits k n) ≡ k
length-digits zero n = refl
length-digits (suc k) n =
    omega
      (arith, length-append (digits k (n / 10)) ((b'0' + n % 10) ∷ []), length-digits k (n / 10))

format_decimal-fill :
    (k n : ℕ) (buffer : List ℕ) (start : ℕ)
    → start + k ≤ length buffer
    → format_decimal buffer start k n ≡ returns (fill_at buffer start (solid (digits k n)))
unfolding format_decimal
format_decimal-fill zero n buffer start h = rw (fill_at-nil buffer start) refl
format_decimal-fill (suc k) n buffer start h =
    rw
      (
        lsh_string_putc-room buffer (start + k) (b'0' + n % 10) (omega arith),
        format_decimal-fill k (n / 10) (fill_at buffer (start + k) last) start
            (omega (arith, length-fill_at buffer (start + k) last)),
        fill_at-before buffer start (start + k) (solid (digits k (n / 10))) last place
            (omega arith),
        solid-append (digits k (n / 10)) ((b'0' + n % 10) ∷ []),
      )
      refl
  where
    last : Cells
    last = some (b'0' + n % 10) ∷ []

    place : start + k ≡ start + length (solid (digits k (n / 10)))
    place = omega (arith, length-solid (digits k (n / 10)), length-digits k (n / 10))

pub write_decimal-Writes :
    (buffer : List ℕ) (pos i : ℕ)
    → Fits buffer pos (solid (digits (format_size_in_decimal i) i))
    → Writes (write_decimal buffer pos i) buffer pos (solid (digits (format_size_in_decimal i) i))
unfolding write_decimal
write_decimal-Writes buffer pos i fits =
    written buffer pos (solid (digits size i)) size (format_decimal buffer pos size i) fits
      (omega (arith, length-solid (digits size i), length-digits size i))
      (format_decimal-fill size i buffer pos
        (omega (arith, fits.0, length-solid (digits size i), length-digits size i)))
  where
    size : ℕ
    size = format_size_in_decimal i

-- The size is exact for every 32-bit number: one digit less would not hold it.
pub format_size_in_decimal_bounds :
    (n : ℕ)
    → n < 2 ^ 32
    → (n < 10 ^ format_size_in_decimal n) × (0 < n → 10 ^ (format_size_in_decimal n - 1) ≤ n)
unfolding format_size_in_decimal decimal_loop
format_size_in_decimal_bounds n h = ground arith

-- The value of decimal digits.
abbrev pub decimal_value : ℕ → List ℕ → ℕ
decimal_value v [] = v
decimal_value v (d ∷ s) = decimal_value (v * 10 + (d - b'0')) s

decimal_value-append :
    (v d : ℕ) (s : List ℕ) → decimal_value v (s ++ (d ∷ [])) ≡ decimal_value v s * 10 + (d - b'0')
decimal_value-append v d [] = refl
decimal_value-append v d (x ∷ s) = decimal_value-append (v * 10 + (x - b'0')) d s

decimal_value-digits : (k n : ℕ) → n < 10 ^ k → decimal_value 0 (digits k n) ≡ n
decimal_value-digits zero n h = omega arith
decimal_value-digits (suc k) n h =
    rw
      (
        decimal_value-append 0 (b'0' + n % 10) (digits k (n / 10)),
        decimal_value-digits k (n / 10) small,
      )
      (omega arith)
  where
    small : n / 10 < 10 ^ k
    small = let e = simp unary_clauses at h in omega arith

-- `%di` writes a number of less than 2^32 in decimal: the position moves by the digits that
-- format_size_in_decimal counts, they are those of the number, and there is no leading zero.
pub write_decimal-value :
    (buffer : List ℕ) (pos i : ℕ)
    → i < 2 ^ 32
    → pos + format_size_in_decimal i ≤ length buffer
    → length buffer < 2 ^ 32
    → (write_decimal buffer pos i
        ≡ returns (
          fill_at buffer pos (solid (digits (format_size_in_decimal i) i)),
          pos + format_size_in_decimal i,
        ))
      × (decimal_value 0 (digits (format_size_in_decimal i) i) ≡ i)
      × (0 < i → 10 ^ (format_size_in_decimal i - 1) ≤ i)
write_decimal-value buffer pos i h room small = (
  write_decimal-Writes buffer pos i (omega (arith, size_is), small)
      ∙ ap {A = ℕ}
          (λ l. returns (fill_at buffer pos (solid (digits (format_size_in_decimal i) i)), pos + l))
          size_is,
  decimal_value-digits (format_size_in_decimal i) i (format_size_in_decimal_bounds i h).0,
  (format_size_in_decimal_bounds i h).1,
)
  where
    size_is : length (solid (digits (format_size_in_decimal i) i)) ≡ format_size_in_decimal i
    size_is = omega (
      arith,
      length-solid (digits (format_size_in_decimal i) i),
      length-digits (format_size_in_decimal i) i,
    )
