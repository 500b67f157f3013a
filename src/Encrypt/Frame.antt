-- ===== src/Encrypt/Frame.antt =====
-- src/encrypt.c: the bytes that encrypt_packet gives.
use native.Mathlib.Nat.{div-mul-le_self, lt-div-mul-add}
use lsh.Prelude.{
  ℕ, zero, suc, ◌+◌, ◌*◌, ◌/◌, ◌%◌, ◌^◌, ◌≤◌, ◌<◌, ◌≡◌, refl, ap, List, [], ◌∷◌, ◌++◌, append-nil,
  length-append, length, drop, add32, none, some, true, returns, arith,
}
use lsh.LshString.{lsh_string_write, uint32_bytes, overlay, write_at, has_room}
use lsh.LshString.Cells.{solid, fill}
use lsh.Format.{Externals, int, lsh_string, reserve, is_option, set_option}
use lsh.Format.Render.{render, render_step, render_directive, gap}
use lsh.Encrypt.{new_size, padding_length}

-- The size of a frame is a multiple of the block size, and leaves from 4 bytes to one block and 3 for
-- the padding.
pub new_size_lem :
    (b l : ℕ)
    → 0 < b
    → b ≤ 252
    → l < 2 ^ 24
    → (new_size b l ≡ b * (1 + (8 + l) / b)) × (l + 9 ≤ new_size b l) × (new_size b l ≤ l + 8 + b)
unfolding new_size
new_size_lem b l pos small fits =
    let low = div-mul-le_self (8 + l) b in
    let high = lt-div-mul-add {a = 8 + l} {b = b} pos in
    let e : b * (1 + (8 + l) / b) ≡ (8 + l) / b * b + b = grind arith in
    let w : add32 8 l ≡ 8 + l = omega arith in
    rw (w) (
      rw e (
        let z : ((8 + l) / b * b + b) % 2 ^ 32 ≡ (8 + l) / b * b + b = omega arith in z,
        omega arith,
        omega arith,
      ))

-- The sum that the frame has to meet.
pub padding_length_lem :
    (b l : ℕ)
    → 0 < b
    → b ≤ 252
    → l < 2 ^ 24
    → (padding_length b l + l + 5 ≡ new_size b l)
      × (4 ≤ padding_length b l)
      × (padding_length b l < 256)
unfolding padding_length
padding_length_lem b l pos small fits =
    let (e, low, high) = new_size_lem b l pos small fits in (omega arith, omega arith, omega arith)

-- A write right behind the front of a string.
overlay-drop : (r t : List ℕ) → length r ≤ length t → overlay r t ≡ r ++ drop (length r) t
overlay-drop [] t h = refl
overlay-drop (x ∷ r) [] h = absurd (omega arith)
overlay-drop (x ∷ r) (y ∷ t) h = ap (◌∷◌ x) (overlay-drop r t (omega arith))

write_at-behind :
    (h t r : List ℕ)
    → length r ≤ length t
    → write_at (h ++ t) (length h) r ≡ h ++ (r ++ drop (length r) t)
write_at-behind [] t r k = overlay-drop r t k
write_at-behind (x ∷ h) t r k = ap (◌∷◌ x) (write_at-behind h t r k)

pub lsh_string_write-behind :
    (h t r : List ℕ) (start : ℕ)
    → start ≡ length h
    → length r ≤ length t
    → lsh_string_write (h ++ t) start r ≡ returns (h ++ (r ++ drop (length r) t))
unfolding lsh_string_write
lsh_string_write-behind h t r start e k =
    let room : has_room (h ++ t) (length h) (length r) ≡ true = ground (arith, length-append h t) in
    rw (e, room, write_at-behind h t r k) refl

-- Reserved bytes are left alone.
fill-gap : (n : ℕ) (s : List ℕ) → fill (gap n) s ≡ s
fill-gap zero s = refl
fill-gap (suc n) [] = refl
fill-gap (suc n) (y ∷ s) = ap (◌∷◌ y) (fill-gap n s)

fill-gaps : (p m : ℕ) (s : List ℕ) → fill (gap p ++ gap m) s ≡ s
fill-gaps zero m s = fill-gap m s
fill-gaps (suc p) m [] = refl
fill-gaps (suc p) m (y ∷ s) = ap (◌∷◌ y) (fill-gaps p m s)

pub fill-front :
    (h s : List ℕ) (p m : ℕ)
    → length h ≤ length s
    → fill (solid h ++ (gap p ++ gap m)) s ≡ h ++ drop (length h) s
fill-front [] s p m k = fill-gaps p m s
fill-front (x ∷ h) [] p m k = absurd (omega arith)
fill-front (x ∷ h) (y ∷ s) p m k = ap (◌∷◌ x) (fill-front h s p m (omega arith))

pub length-gap : (n : ℕ) → length (gap n) ≡ n
length-gap zero = refl
length-gap (suc n) = ap suc (length-gap n)

-- What stands in front of the padding.
abbrev pub frame_head : List ℕ → ℕ → List ℕ
frame_head payload padding = uint32_bytes (length payload + padding + 1) ++ (padding ∷ payload)

pub render-frame :
    (ext : Externals) (payload : List ℕ) (total padding mac : ℕ)
    → padding < 256
    → render ext
        (b'%' ∷ b'i' ∷ b'%' ∷ b'c' ∷ b'%' ∷ b'l' ∷ b'f' ∷ b'S' ∷ b'%' ∷ b'l' ∷ b'r' ∷ b'%' ∷ b'l'
          ∷ b'r' ∷ [])
        none
        (int total ∷ int padding ∷ lsh_string payload ∷ reserve padding ∷ reserve mac ∷ [])
      ≡ some (solid (uint32_bytes total ++ (padding ∷ payload)) ++ (gap padding ++ gap mac))
unfolding render render_step render_directive is_option set_option
render-frame ext payload total padding mac small =
    let byte : padding % 256 ≡ padding = omega arith in rw (byte, append-nil (gap mac)) refl
