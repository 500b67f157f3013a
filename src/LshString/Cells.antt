-- ===== src/LshString/Cells.antt =====
-- Writes into a string, one after another.
use lsh.Prelude.{
  ℕ, zero, suc, ◌+◌, ◌<◌, ◌≤◌, ◌≡◌, refl, ap, ◌∙◌, Option, none, some, List, [], ◌∷◌, ◌++◌, arith,
  length, returns,
}
use lsh.LshString.{
  overlay, write_at, lsh_string_putc, lsh_string_write, lsh_string_write_uint32, uint32_bytes,
}

-- Bytes to write; `none` leaves the byte that is there.
abbrev pub Cells : Type 0
Cells = List (Option ℕ)

abbrev pub cell : Option ℕ → ℕ → ℕ
cell none y = y
cell (some x) y = x

abbrev pub fill : Cells → List ℕ → List ℕ
fill [] s = s
fill (x ∷ xs) [] = []
fill (x ∷ xs) (y ∷ s) = cell x y ∷ fill xs s

abbrev pub fill_at : List ℕ → ℕ → Cells → List ℕ
fill_at s zero xs = fill xs s
fill_at [] (suc p) xs = []
fill_at (y ∷ s) (suc p) xs = y ∷ fill_at s p xs

abbrev pub solid : List ℕ → Cells
solid [] = []
solid (x ∷ xs) = some x ∷ solid xs

pub length-solid : (xs : List ℕ) → length (solid xs) ≡ length xs
length-solid [] = refl
length-solid (x ∷ xs) = ap suc (length-solid xs)

pub solid-append : (xs ys : List ℕ) → solid (xs ++ ys) ≡ solid xs ++ solid ys
solid-append [] ys = refl
solid-append (x ∷ xs) ys = ap (◌∷◌ (some x)) (solid-append xs ys)

overlay-solid : (xs s : List ℕ) → overlay xs s ≡ fill (solid xs) s
overlay-solid [] s = refl
overlay-solid (x ∷ xs) [] = refl
overlay-solid (x ∷ xs) (y ∷ s) = ap (◌∷◌ x) (overlay-solid xs s)

pub write_at-solid : (s : List ℕ) (p : ℕ) (xs : List ℕ) → write_at s p xs ≡ fill_at s p (solid xs)
write_at-solid s zero xs = overlay-solid xs s
write_at-solid [] (suc p) xs = refl
write_at-solid (y ∷ s) (suc p) xs = ap (◌∷◌ y) (write_at-solid s p xs)

length-fill : (xs : Cells) (s : List ℕ) → length (fill xs s) ≡ length s
length-fill [] s = refl
length-fill (x ∷ xs) [] = refl
length-fill (x ∷ xs) (y ∷ s) = ap suc (length-fill xs s)

pub length-fill_at : (s : List ℕ) (p : ℕ) (xs : Cells) → length (fill_at s p xs) ≡ length s
length-fill_at s zero xs = length-fill xs s
length-fill_at [] (suc p) xs = refl
length-fill_at (y ∷ s) (suc p) xs = ap suc (length-fill_at s p xs)

pub fill_at-nil : (s : List ℕ) (p : ℕ) → fill_at s p [] ≡ s
fill_at-nil s zero = refl
fill_at-nil [] (suc p) = refl
fill_at-nil (y ∷ s) (suc p) = ap (◌∷◌ y) (fill_at-nil s p)

-- Two writes, the second right behind the first, in either order.
fill-append :
    (xs ys : Cells) (s : List ℕ)
    → length xs ≤ length s
    → fill_at (fill xs s) (length xs) ys ≡ fill (xs ++ ys) s
fill-append [] ys s h = refl
fill-append (x ∷ xs) ys [] h = absurd (omega arith)
fill-append (x ∷ xs) ys (y ∷ s) h = ap (◌∷◌ (cell x y)) (fill-append xs ys s (omega arith))

pub fill_at-after :
    (s : List ℕ) (p q : ℕ) (xs ys : Cells)
    → q ≡ p + length xs
    → q ≤ length s
    → fill_at (fill_at s p xs) q ys ≡ fill_at s p (xs ++ ys)
fill_at-after s zero q xs ys e h =
    ap {A = ℕ} (λ j. fill_at (fill xs s) j ys) (omega arith) ∙ fill-append xs ys s (omega arith)
fill_at-after [] (suc p) zero xs ys e h = absurd (omega arith)
fill_at-after [] (suc p) (suc q) xs ys e h = refl
fill_at-after (y ∷ s) (suc p) zero xs ys e h = absurd (omega arith)
fill_at-after (y ∷ s) (suc p) (suc q) xs ys e h =
    ap (◌∷◌ y) (fill_at-after s p q xs ys (omega arith) (omega arith))

fill-before :
    (xs ys : Cells) (s : List ℕ)
    → length xs ≤ length s
    → fill xs (fill_at s (length xs) ys) ≡ fill (xs ++ ys) s
fill-before [] ys s h = refl
fill-before (x ∷ xs) ys [] h = absurd (omega arith)
fill-before (x ∷ xs) ys (y ∷ s) h = ap (◌∷◌ (cell x y)) (fill-before xs ys s (omega arith))

pub fill_at-before :
    (s : List ℕ) (p q : ℕ) (xs ys : Cells)
    → q ≡ p + length xs
    → q ≤ length s
    → fill_at (fill_at s q ys) p xs ≡ fill_at s p (xs ++ ys)
fill_at-before s zero q xs ys e h =
    ap {A = ℕ} (λ j. fill xs (fill_at s j ys)) (omega arith) ∙ fill-before xs ys s (omega arith)
fill_at-before [] (suc p) zero xs ys e h = absurd (omega arith)
fill_at-before [] (suc p) (suc q) xs ys e h = refl
fill_at-before (y ∷ s) (suc p) zero xs ys e h = absurd (omega arith)
fill_at-before (y ∷ s) (suc p) (suc q) xs ys e h =
    ap (◌∷◌ y) (fill_at-before s p q xs ys (omega arith) (omega arith))

-- A write over a whole string.
pub fill-all : (xs s : List ℕ) → length xs ≡ length s → fill (solid xs) s ≡ xs
fill-all [] [] e = refl
fill-all [] (y ∷ s) e = absurd (omega arith)
fill-all (x ∷ xs) [] e = absurd (omega arith)
fill-all (x ∷ xs) (y ∷ s) e = ap (◌∷◌ x) (fill-all xs s (omega arith))

-- The checked writes succeed where there is room.
pub lsh_string_putc-room :
    (s : List ℕ) (i c : ℕ)
    → i < length s
    → lsh_string_putc s i c ≡ returns (fill_at s i (some c ∷ []))
unfolding lsh_string_putc
lsh_string_putc-room s i c h = rw (← write_at-solid s i (c ∷ [])) (ground arith)

pub lsh_string_write-room :
    (s : List ℕ) (p : ℕ) (xs : List ℕ)
    → p + length xs ≤ length s
    → lsh_string_write s p xs ≡ returns (fill_at s p (solid xs))
unfolding lsh_string_write
lsh_string_write-room s p xs h = rw (← write_at-solid s p xs) (ground arith)

pub lsh_string_write_uint32-room :
    (s : List ℕ) (p n : ℕ)
    → p + 4 ≤ length s
    → lsh_string_write_uint32 s p n ≡ returns (fill_at s p (solid (uint32_bytes n)))
unfolding lsh_string_write_uint32
lsh_string_write_uint32-room s p n h = rw (← write_at-solid s p (uint32_bytes n)) (ground arith)
