-- ===== src/Parse/Utf8/Encode.antt =====
-- What parse_utf8 accepts: exactly the shortest encoding of each character that is not excluded.
use lsh.Prelude.{
  ℕ, zero, suc, ◌+◌, ◌*◌, ◌/◌, ◌%◌, ◌^◌, ◌<◌, ◌≤◌, ◌≡◌, ap, ◌∙◌, true, List, [], ◌∷◌, ◌++◌, arith,
  ltb, ◌==◌, Bool-cases, inl, inr, if◌then◌else◌,
}
use lsh.Parse.{SimpleBuffer}
use lsh.Parse.Cursor.{Sees, Sees-head, Sees-tail}
use lsh.Parse.Utf8.{lead, sequence, min_value, finish_utf8, follow}

-- What is left of a number without its lowest `k` groups of six bits.
abbrev pub high : ℕ → ℕ → ℕ
high zero c = c
high (suc k) c = high k c / 64

-- The continuation bytes: the lowest `k` groups of six bits, the highest first.
abbrev pub groups : ℕ → ℕ → List ℕ
groups zero c = []
groups (suc k) c = (128 + high k c % 64) ∷ groups k c

-- How many continuation bytes a number of up to 31 bits needs.
abbrev pub continuation : ℕ → ℕ
continuation c =
    if ltb c 0x80
    then 0
    else if ltb c 0x800
    then 1
    else if ltb c 0x10000
    then 2
    else if ltb c 0x200000
    then 3
    else if ltb c 0x4000000
    then 4
    else 5

-- The ones at the top of the first byte.
abbrev pub prefix : ℕ → ℕ
prefix k =
    if k == 0
    then 0
    else if k == 1
    then 0xC0
    else if k == 2
    then 0xE0
    else if k == 3
    then 0xF0
    else if k == 4
    then 0xF8
    else 0xFC

unfoldable pub utf8 : ℕ → List ℕ
utf8 c = (prefix (continuation c) + high (continuation c) c) ∷ groups (continuation c) c

-- Reading the groups back.
pub follow-groups :
    (k i c : ℕ) (s : List ℕ) (b : SimpleBuffer)
    → Sees b i (groups k c ++ s)
    → follow k i (high k c) b ≡ finish_utf8 (i + k) c b
unfolding follow
follow-groups zero i c s b look = ap {A = ℕ} (λ j. finish_utf8 j c b) (omega arith)
follow-groups (suc k) i c s b look =
    rw (Sees-head b i _ (groups k c ++ s) look, group, whole)
      (follow-groups k (i + 1) c s b (Sees-tail b i _ (groups k c ++ s) look)
        ∙ ap {A = ℕ} (λ j. finish_utf8 j c b) (omega arith))
  where
    group : ((128 + high k c % 64) / 64 == 2) ≡ true
    group = ground arith

    whole : high k c / 64 * 64 + (128 + high k c % 64) % 64 ≡ high k c
    whole = omega arith

-- The six ranges of `continuation`.
pub by_size {ℓ} :
    (P : ℕ → Type ℓ) (c : ℕ)
    → (c < 0x80 → P 0)
    → (0x80 ≤ c → c < 0x800 → P 1)
    → (0x800 ≤ c → c < 0x10000 → P 2)
    → (0x10000 ≤ c → c < 0x200000 → P 3)
    → (0x200000 ≤ c → c < 0x4000000 → P 4)
    → (0x4000000 ≤ c → P 5)
    → P (continuation c)
by_size P c h0 h1 h2 h3 h4 h5 = elim (Bool-cases (ltb c 0x80)) [
  | inl e ↦ rw e (h0 (ground arith))
  | inr e0 ↦ rw e0 (elim (Bool-cases (ltb c 0x800)) [
    | inl e ↦ rw e (h1 (ground arith) (ground arith))
    | inr e1 ↦ rw e1 (elim (Bool-cases (ltb c 0x10000)) [
      | inl e ↦ rw e (h2 (ground arith) (ground arith))
      | inr e2 ↦ rw e2 (elim (Bool-cases (ltb c 0x200000)) [
        | inl e ↦ rw e (h3 (ground arith) (ground arith))
        | inr e3 ↦ rw e3 (elim (Bool-cases (ltb c 0x4000000)) [
          | inl e ↦ rw e (h4 (ground arith) (ground arith))
          | inr e4 ↦ rw e4 (h5 (ground arith))
        ])
      ])
    ])
  ])
]

pub lead-prefix :
    (c : ℕ)
    → 0x80 ≤ c
    → c < 2 ^ 31
    → lead (prefix (continuation c) + high (continuation c) c)
      ≡ sequence (suc (continuation c)) (high (continuation c) c)
unfolding lead
lead-prefix c h k =
    by_size (λ n. lead (prefix n + high n c) ≡ sequence (suc n) (high n c)) c
      (λ a. absurd (omega arith)) (λ a b. ground arith) (λ a b. ground arith) (λ a b. ground arith)
      (λ a b. ground arith) (λ a. ground arith)

pub first_byte : (c : ℕ) → 0x80 ≤ c → 0xC0 ≤ prefix (continuation c) + high (continuation c) c
first_byte c h =
    by_size (λ n. 0xC0 ≤ prefix n + high n c) c (λ a. absurd (omega arith)) (λ a b. omega arith)
      (λ a b. omega arith) (λ a b. omega arith) (λ a b. omega arith) (λ a. omega arith)

pub min_value-continuation : (c : ℕ) → 0x80 ≤ c → min_value (suc (continuation c)) ≤ c
unfolding min_value
min_value-continuation c h =
    by_size (λ n. min_value (suc n) ≤ c) c (λ a. absurd (omega arith)) (λ a b. a) (λ a b. a)
      (λ a b. a) (λ a b. a) (λ a. a)
