-- ===== src/SshWrite/Buffer.antt =====
-- The bytes that wait in a buffer of ssh_write.c, and what happens to them.
use lsh.Prelude.{
  ℕ, zero, suc, ◌+◌, ◌-◌, ◌≤◌, ◌<◌, ◌^◌, ◌≡◌, refl, ap, ◌∙◌, sym, List, [], ◌∷◌, ◌++◌, length, take,
  drop, arith, length-take, length-drop, drop-drop, sub32, add32,
}
use lsh.LshString.{overlay, write_at}
use lsh.SshWrite.{SshWriteState, consume}

abbrev pub pending : SshWriteState → List ℕ
pending s = take s.length (drop s.start s.buffer)

-- The bytes lie in the buffer, whose size is small enough for the sums of uint32_t.
pub record IsValid (s : SshWriteState) : Type 0 where
  pub inside : s.start + s.length ≤ length s.buffer
  pub small : length s.buffer < 2 ^ 31

take-nil : (n : ℕ) → take {A = ℕ} n [] ≡ []
take-nil zero = refl
take-nil (suc n) = refl

take-split : (k n : ℕ) (xs : List ℕ) → k ≤ n → take k xs ++ take (n - k) (drop k xs) ≡ take n xs
take-split zero n xs h = ap {A = ℕ} (λ m. take m xs) (omega arith)
take-split (suc k) zero xs h = absurd (omega arith)
take-split (suc k) (suc n) [] h = take-nil (suc n - suc k)
take-split (suc k) (suc n) (x ∷ xs) h =
    ap {A = ℕ} (λ m. x ∷ (take k xs ++ take m (drop k xs))) (omega arith)
    ∙ ap (◌∷◌ x) (take-split k n xs (omega arith))

take-overlay : (xs s : List ℕ) → length xs ≤ length s → take (length xs) (overlay xs s) ≡ xs
take-overlay [] s h = refl
take-overlay (x ∷ xs) [] h = absurd (omega arith)
take-overlay (x ∷ xs) (y ∷ s) h = ap (◌∷◌ x) (take-overlay xs s (omega arith))

pub take-write_at :
    (s : List ℕ) (p : ℕ) (xs : List ℕ)
    → p + length xs ≤ length s
    → take (p + length xs) (write_at s p xs) ≡ take p s ++ xs
take-write_at s zero xs h =
    ap {A = ℕ} (λ m. take m (overlay xs s)) (omega arith) ∙ take-overlay xs s (omega arith)
take-write_at [] (suc p) xs h = absurd (omega arith)
take-write_at (y ∷ s) (suc p) xs h =
    ap {A = ℕ} (λ m. take m (y ∷ write_at s p xs))
      (let e : suc p + length xs ≡ suc (p + length xs) = omega arith in e)
    ∙ ap (◌∷◌ y) (take-write_at s p xs (omega arith))

write_at-nil : (p : ℕ) (xs : List ℕ) → write_at [] p xs ≡ []
write_at-nil zero [] = refl
write_at-nil zero (x ∷ xs) = refl
write_at-nil (suc p) xs = refl

pub drop-write_at :
    (s : List ℕ) (n p : ℕ) (xs : List ℕ) → drop n (write_at s (n + p) xs) ≡ write_at (drop n s) p xs
drop-write_at s zero p xs = ap {A = ℕ} (λ m. write_at s m xs) (omega arith)
drop-write_at [] (suc n) p xs =
    ap {A = ℕ} (λ m. drop (suc n) (write_at [] m xs))
      (let e : suc n + p ≡ suc (n + p) = omega arith in e)
    ∙ sym (write_at-nil p xs)
drop-write_at (y ∷ s) (suc n) p xs =
    ap {A = ℕ} (λ m. drop (suc n) (write_at (y ∷ s) m xs))
      (let e : suc n + p ≡ suc (n + p) = omega arith in e)
    ∙ drop-write_at s n p xs

length-overlay : (xs s : List ℕ) → length (overlay xs s) ≡ length s
length-overlay [] s = refl
length-overlay (x ∷ xs) [] = refl
length-overlay (x ∷ xs) (y ∷ s) = ap suc (length-overlay xs s)

pub length-write_at : (s : List ℕ) (p : ℕ) (xs : List ℕ) → length (write_at s p xs) ≡ length s
length-write_at s zero xs = length-overlay xs s
length-write_at [] (suc p) xs = refl
length-write_at (y ∷ s) (suc p) xs = ap suc (length-write_at s p xs)

pub length-pending : (s : SshWriteState) → IsValid s → length (pending s) ≡ s.length
length-pending s v =
    omega
      (arith, v.inside, length-take s.length (drop s.start s.buffer), length-drop s.start s.buffer)

-- The bytes that are consumed are those at the front.
pub consume-pending :
    (s : SshWriteState) (k : ℕ)
    → IsValid s
    → k ≤ s.length
    → take k (drop s.start s.buffer) ++ pending (consume k s) ≡ pending s
consume-pending s k v h =
    let e : sub32 s.length k ≡ s.length - k = omega (arith, v.inside, v.small) in
    let e' : add32 s.start k ≡ s.start + k = omega (arith, v.inside, v.small) in
    rw (e, e', ← drop-drop s.start k s.buffer) (take-split k s.length (drop s.start s.buffer) h)

pub consume-IsValid : (s : SshWriteState) (k : ℕ) → IsValid s → k ≤ s.length → IsValid (consume k s)
consume-IsValid s k v h = record { inside = omega (arith, v.inside, v.small); small = v.small }
