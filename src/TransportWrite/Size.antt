-- ===== src/TransportWrite/Size.antt =====
-- src/transport_write.c: select_write_size ends, and what it selects.
use lsh.Prelude.{
  ℕ, zero, suc, ◌+◌, ◌-◌, ◌*◌, ◌%◌, ◌^◌, ◌≤◌, ◌<◌, ◌≡◌, refl, Option, some, ◌==◌, leb, ltb, ◌⊎◌,
  sub32, arith, Bool-cases, inl, inr,
}
use native.Mathlib.Nat.{div-mul-le_self}
use lsh.TransportWrite.{masked, shift_mask, select_write_size}

-- A size between `no_ignore` and `length`.
abbrev pub Selects : Option ℕ → ℕ → ℕ → Type 0
Selects o no_ignore length = (n : ℕ) × (o ≡ some n) × (no_ignore ≤ n) × (n ≤ length)

shift_mask-Selects :
    (fuel length no_ignore low : ℕ)
    → length < 2 ^ 32
    → 0 < no_ignore
    → no_ignore ≤ masked length low
    → fuel + low ≡ 32
    → Selects (shift_mask fuel length no_ignore low) no_ignore length
unfolding shift_mask
shift_mask-Selects zero length no_ignore low small pos fits e = absurd (
    let none_left : masked length low ≡ 0 =
      rw (let q : low ≡ 32 = omega arith in q) (omega arith) in
    omega arith)
shift_mask-Selects (suc fuel) length no_ignore low small pos fits e =
    elim (Bool-cases (leb no_ignore (masked length (low + 1)))) [
      | inl t ↦ rw t (
          shift_mask-Selects fuel length no_ignore (low + 1) small pos (ground arith) (omega arith))
      | inr t ↦ rw t (masked length low, refl, fits, div-mul-le_self length (2 ^ low))
    ]

masked-none : (length : ℕ) → masked length 0 ≡ length
masked-none length = omega arith

-- Where the data is at least the threshold, or some of it is not ignorable, and the threshold eight
-- times fits in 32 bits, the loop of select_write_size ends within 32 rounds. The size selected is positive
-- and at most `length`, and below the threshold it leaves only ignorable data.
pub select_write_size-Selects :
    (length ignore threshold : ℕ)
    → length < 2 ^ 32
    → 0 < threshold
    → 8 * threshold < 2 ^ 32
    → (length < threshold → ignore < length)
    → (n : ℕ) × (select_write_size length ignore threshold ≡ some n)
      × (0 < n)
      × (n ≤ length)
      × (length < threshold → length - ignore ≤ n)
unfolding select_write_size
select_write_size-Selects length ignore threshold small pos fits below =
    elim (Bool-cases (leb (8 * threshold % 2 ^ 32) length)) [
      | inl e ↦ rw e (8 * threshold % 2 ^ 32, refl, omega arith, ground arith, λ h. ground arith)
      | inr e ↦ elim (Bool-cases (leb threshold length)) [
        | inl e' ↦ rw (e, e') (threshold, refl, pos, ground arith, λ h. ground arith)
        | inr e' ↦ elim (Bool-cases (ignore == 0)) [
          | inl z ↦
              rw (e, e', z) (length, refl, lower (ground arith), omega arith, λ h. omega arith)
          | inr z ↦ rw (e, e', z) (loop (below (ground arith)))
        ]
      ]
    ]
  where
    lower : length < threshold → 0 < length
    lower h = let b = below h in omega arith

    loop :
        ignore < length
        → (n : ℕ) × (shift_mask 32 length (sub32 length ignore) 0 ≡ some n)
          × (0 < n)
          × (n ≤ length)
          × (length < threshold → length - ignore ≤ n)
    loop b =
        let (n, q, low, high) =
          shift_mask-Selects 32 length (sub32 length ignore) 0 small (omega arith) (omega arith)
            refl in
        (n, q, omega arith, high, λ h. omega arith)

select_write_size-nothing :
    (threshold : ℕ)
    → 0 < threshold
    → 8 * threshold < 2 ^ 32
    → select_write_size 0 0 threshold ≡ some 0
unfolding select_write_size
select_write_size-nothing threshold pos fits = ground arith

-- The selection also ends where there is nothing to ignore.
pub select_write_size-ends :
    (length ignore threshold : ℕ)
    → length < 2 ^ 32
    → 0 < threshold
    → 8 * threshold < 2 ^ 32
    → (length < threshold → (ignore ≡ 0) ⊎ (ignore < length))
    → (n : ℕ) × (select_write_size length ignore threshold ≡ some n)
      × (n ≤ length)
      × (0 < length → 0 < n)
select_write_size-ends length ignore threshold small pos fits ends =
    elim (Bool-cases (ltb length threshold)) [
      | inl below ↦ elim (ends (ground arith)) [
        | inl none_ignored ↦ elim (Bool-cases (length == 0)) [
          | inl e ↦ (
            0,
            rw (none_ignored, let z : length ≡ 0 = ground arith in z)
                (select_write_size-nothing threshold pos fits),
            omega arith,
            λ h. ground arith,
          )
          | inr e ↦ selected (λ h. ground arith)
        ]
        | inr some_left ↦ selected (λ h. some_left)
      ]
      | inr above ↦ selected (λ h. ground arith)
    ]
  where
    selected :
        (length < threshold → ignore < length)
        → (n : ℕ) × (select_write_size length ignore threshold ≡ some n)
          × (n ≤ length)
          × (0 < length → 0 < n)
    selected h =
        let (n, e, p, u, l) = select_write_size-Selects length ignore threshold small pos fits h in
        (n, e, u, λ h. p)
