-- ===== src/TransportRead/Sizes.antt =====
-- src/encrypt.c and src/transport_read.c: the sizes of a frame, of its first block and of the rest.
use native.Mathlib.Nat.{mul-mod_right}
use lsh.Prelude.{
  ℕ, zero, suc, ◌+◌, ◌-◌, ◌*◌, ◌/◌, ◌%◌, ◌^◌, ◌≤◌, ◌<◌, ◌≡◌, refl, List, ◌∷◌, ◌++◌, length-append,
  length, take, drop, length-take, length-drop, arith, inl, inr, ◌⊎◌,
}
use lsh.Encrypt.{new_size, padding_length}
use lsh.Encrypt.Frame.{new_size_lem, padding_length_lem}

pub take-five :
    (b x0 x1 x2 x3 x4 : ℕ) (r : List ℕ)
    → 5 ≤ b
    → (take b (x0 ∷ x1 ∷ x2 ∷ x3 ∷ x4 ∷ r) ≡ x0 ∷ x1 ∷ x2 ∷ x3 ∷ x4 ∷ take (b - 5) r)
      × (drop b (x0 ∷ x1 ∷ x2 ∷ x3 ∷ x4 ∷ r) ≡ drop (b - 5) r)
take-five (suc (suc (suc (suc (suc k))))) x0 x1 x2 x3 x4 r h =
    let e : suc (suc (suc (suc (suc k)))) - 5 ≡ k = omega arith in rw e (refl, refl)
take-five zero x0 x1 x2 x3 x4 r h = absurd (omega arith)
take-five (suc zero) x0 x1 x2 x3 x4 r h = absurd (omega arith)
take-five (suc (suc zero)) x0 x1 x2 x3 x4 r h = absurd (omega arith)
take-five (suc (suc (suc zero))) x0 x1 x2 x3 x4 r h = absurd (omega arith)
take-five (suc (suc (suc (suc zero)))) x0 x1 x2 x3 x4 r h = absurd (omega arith)

-- Of two block sizes that the code can meet, the frame has at least 16 bytes.
sixteen :
    (b l : ℕ)
    → (b ≡ 8) ⊎ (16 ≤ b)
    → b ≤ 252
    → 0 < l
    → l < 2 ^ 24
    → (16 ≤ new_size b l) × (b ≤ new_size b l)
sixteen b l (inl e) small some_bytes fits =
    let (mult, low, high) = new_size_lem 8 l (omega arith) (omega arith) fits in
    rw e (omega arith, omega arith)
sixteen b l (inr h) small some_bytes fits =
    let (mult, low, high) = new_size_lem b l (omega arith) small fits in
    let e : b * (1 + (8 + l) / b) ≡ b + (8 + l) / b * b = grind arith in (omega arith, omega arith)

-- The sizes of a frame with the padding `r`, of the encrypted frame `cipher`, and of their first blocks.
pub frame-sizes :
    (b p : ℕ) (packet r cipher : List ℕ)
    → (b ≡ 8) ⊎ (16 ≤ b)
    → b ≤ 252
    → (0 < length packet) × (length packet ≤ 34000)
    → p ≡ padding_length b (length packet)
    → length r ≡ p
    → length cipher ≡ length packet + p + 5
    → (length packet + p + 5 ≡ new_size b (length packet))
      × (5 ≤ b)
      × (4 ≤ p)
      × ((length packet + p + 5) % b ≡ 0)
      × (12 ≤ length packet + p + 1)
      × (length packet + p + 1 ≤ 35000)
      × (length (take b cipher) ≡ b)
      × (length (take (b - 5) (packet ++ r)) + 5 ≡ b)
      × (length (drop b cipher) ≡ length (drop (b - 5) (packet ++ r)))
      × (b ≤ length packet + p + 5)
frame-sizes b p packet r cipher block small (some_bytes, few) e r_long c_long =
    let pos : 0 < b = positive block in
    let (sum, least, most) = padding_length_lem b (length packet) pos small (omega arith) in
    let (mult, low, high) = new_size_lem b (length packet) pos small (omega arith) in
    let (sixteen_bytes, one_block) =
      sixteen b (length packet) block small some_bytes (omega arith) in
    let size : length packet + p + 5 ≡ new_size b (length packet) = omega arith in
    let body = length-append packet r in
    (
      size,
      five block,
      omega arith,
      rw (size, mult) (mul-mod_right b _),
      omega arith,
      omega arith,
      omega (arith, length-take b cipher),
      omega (arith, length-take (b - 5) (packet ++ r), five block),
      omega (arith, length-drop b cipher, length-drop (b - 5) (packet ++ r), five block),
      omega arith,
    )
  where
    five : (b ≡ 8) ⊎ (16 ≤ b) → 5 ≤ b
    five (inl h) = omega arith
    five (inr h) = omega arith

    positive : (b ≡ 8) ⊎ (16 ≤ b) → 0 < b
    positive (inl h) = omega arith
    positive (inr h) = omega arith
