-- ===== src/Format/Hexadecimal.antt =====
-- The `x` option of format.c, for a zero-terminated string.
use lsh.Prelude.{
  ℕ, ◌+◌, ◌*◌, ◌/◌, ◌%◌, ◌^◌, ◌<◌, ◌≤◌, ◌≡◌, refl, List, [], ◌∷◌, some, arith, length, returns,
  aborted, ltb, Bool-cases, inl, inr,
}
use lsh.LshString.{lsh_string_putc}
use lsh.LshString.Cells.{fill_at, length-fill_at}
use lsh.Format.{
  Externals, cstring, put_octet, format_hex, format_string, format_length, is_option, set_option,
  hexchars,
}
use lsh.Format.Length.{
  ssh_vformat_length, vformat_length, length_step, directive_length, field_length,
}
use lsh.Format.Write.{vformat_write, write_step, directive_write, ssh_vformat_write, ssh_format}
use lsh.Format.Pieces.{put_octet-Writes}

-- A write behind the end stops the program.
put_octet-full :
    (buffer : List ℕ) (pos c : ℕ) → length buffer ≤ pos → put_octet buffer pos c ≡ aborted
unfolding put_octet lsh_string_putc
put_octet-full buffer pos c h = ground arith

format_hex-short :
    (s buffer : List ℕ) (pos : ℕ)
    → length buffer < 2 ^ 32
    → pos ≤ length buffer
    → length buffer < pos + 2 * length s
    → format_hex buffer pos s ≡ aborted
unfolding format_hex
format_hex-short [] buffer pos small h k = absurd (omega arith)
format_hex-short (d ∷ s) buffer pos small h k = elim (Bool-cases (ltb pos (length buffer))) [
  | inl first ↦
      rw (put_octet-Writes buffer pos (hexchars (d % 256 / 16)) (ground arith, small))
        (elim (Bool-cases (ltb (pos + 1) (length buffer))) [
          | inl second ↦
              rw
                (put_octet-Writes one (pos + 1) (hexchars (d % 16))
                  (ground (arith, same), omega (arith, same)))
                (format_hex-short s two (pos + 1 + 1) (omega (arith, same, same'))
                  (ground (arith, same, same')) (omega (arith, same, same')))
          | inr full ↦
              rw (put_octet-full one (pos + 1) (hexchars (d % 16)) (ground (arith, same))) refl
        ])
  | inr full ↦ rw (put_octet-full buffer pos (hexchars (d % 256 / 16)) (ground arith)) refl
]
  where
    one : List ℕ
    one = fill_at buffer pos (some (hexchars (d % 256 / 16)) ∷ [])

    two : List ℕ
    two = fill_at one (pos + 1) (some (hexchars (d % 16)) ∷ [])

    same : length one ≡ length buffer
    same = length-fill_at buffer pos (some (hexchars (d % 256 / 16)) ∷ [])

    same' : length two ≡ length one
    same' = length-fill_at one (pos + 1) (some (hexchars (d % 16)) ∷ [])

module _ (ext : Externals) where
  ssh_vformat_length-hex :
      (s : List ℕ)
      → length s < 2 ^ 32
      → ssh_vformat_length ext (b'%' ∷ b'l' ∷ b'x' ∷ b'z' ∷ []) (cstring s ∷ [])
        ≡ returns (length s)
  unfolding ssh_vformat_length vformat_length length_step directive_length is_option set_option
      field_length
  ssh_vformat_length-hex s h = ground arith

  ssh_vformat_write-hex :
      (s buffer : List ℕ)
      → format_hex buffer 0 s ≡ aborted
      → ssh_vformat_write ext (b'%' ∷ b'l' ∷ b'x' ∷ b'z' ∷ []) buffer 0 (cstring s ∷ []) ≡ aborted
  unfolding ssh_vformat_write vformat_write write_step directive_write is_option set_option
      format_string format_length
  ssh_vformat_write-hex s buffer h = ground arith

  -- `%lxz` stops the program for every string that is not empty: the length counts one byte for each
  -- byte of the string, the digits are two.
  pub ssh_format-hex_aborts :
      (fresh : ℕ → List ℕ) (s : List ℕ)
      → ((n : ℕ) → length (fresh n) ≡ n)
      → 0 < length s
      → length s < 2 ^ 32
      → ssh_format ext fresh (b'%' ∷ b'l' ∷ b'x' ∷ b'z' ∷ []) (cstring s ∷ []) ≡ aborted
  unfolding ssh_format
  ssh_format-hex_aborts fresh s sized h small = rw (ssh_vformat_length-hex s small) (
      ssh_vformat_write-hex s (fresh (length s)) (
        format_hex-short s (fresh (length s)) 0 (omega (arith, sized (length s))) (omega arith)
          (omega (arith, sized (length s)))))
