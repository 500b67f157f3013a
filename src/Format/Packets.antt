-- ===== src/Format/Packets.antt =====
-- Fields that ssh_format writes are those that parse.c reads.
use lsh.Prelude.{
  ℕ, ◌+◌, ◌/◌, ◌%◌, ◌^◌, ◌<◌, ◌≡◌, refl, ap, ◌∙◌, List, [], ◌∷◌, ◌++◌, some, none, arith, length,
  ltb, false, returns, take-append, drop-append, length-append, append-nil,
}
use lsh.LshString.{uint32_bytes}
use lsh.LshString.Cells.{solid, length-solid, fill-all}
use lsh.Parse.{SimpleBuffer, parse_string, read_uint32}
use lsh.Parse.Cursor.{View, Agrees}
use lsh.Parse.Refine.{string, parse_string-Refines}
use lsh.Format.{Externals, bytes, is_option}
use lsh.Format.Write.{ssh_format}
use lsh.Format.Render.{render, render_step, render_directive}
use lsh.Format.Whole.{ssh_format-render}

-- A string with its length in front.
abbrev pub string_bytes : List ℕ → List ℕ
string_bytes s = uint32_bytes (length s) ++ s

pub read_uint32-bytes :
    (n : ℕ)
    → n < 2 ^ 32
    → read_uint32 (n / 16777216 % 256) (n / 65536 % 256) (n / 256 % 256) (n % 256) ≡ n
unfolding read_uint32
read_uint32-bytes n h = omega arith

pub string-bytes : (s r : List ℕ) → length s < 2 ^ 32 → string (string_bytes s ++ r) ≡ some (s, r)
string-bytes s r h =
    rw (read_uint32-bytes (length s) h, longer, take-append s r, drop-append s r) refl
  where
    longer : ltb (length (s ++ r)) (length s) ≡ false
    longer = ground (arith, length-append s r)

render-string :
    (ext : Externals) (s : List ℕ)
    → render ext (b'%' ∷ b's' ∷ []) none (bytes s ∷ []) ≡ some (solid (string_bytes s))
unfolding render render_step render_directive is_option
render-string ext s = ground (arith, append-nil (solid (string_bytes s)))

-- `%s` of a string with room for its length field, at the front of any packet, is read back by
-- parse_string, which leaves what follows it.
pub parse_string-ssh_format :
    (ext : Externals) (fresh : ℕ → List ℕ) (s r : List ℕ) (b : SimpleBuffer)
    → ((n : ℕ) → length (fresh n) ≡ n)
    → length s + 4 < 2 ^ 32
    → View b (string_bytes s ++ r)
    → (ssh_format ext fresh (b'%' ∷ b's' ∷ []) (bytes s ∷ []) ≡ returns (string_bytes s))
      × Agrees (parse_string b) (some (s, r))
parse_string-ssh_format ext fresh s r b sized small v = (
  ssh_format-render ext fresh _ _ (solid (string_bytes s)) sized (render-string ext s)
        (omega (arith, length-solid s))
      ∙ ap {A = List ℕ} returns (
          fill-all (string_bytes s) (fresh (length (solid (string_bytes s))))
            (omega (arith, length-solid s, sized (length (solid (string_bytes s)))))),
  rw (string-bytes s r (omega arith)) at (parse_string-Refines b (string_bytes s ++ r) v),
)
