-- ===== src/Parse/Utf8/Sound.antt =====
-- What parse_utf8 accepts is the shortest encoding of the value that it returns.
use lsh.Prelude.{
  ℕ, zero, suc, ◌+◌, ◌-◌, ◌*◌, ◌/◌, ◌%◌, ◌^◌, ◌<◌, ◌≤◌, ◌≡◌, refl, sym, ap, ◌∙◌, true, false, List,
  [], ◌∷◌, ◌++◌, some, arith, length, ltb, ◌==◌, Bool-cases, inl, inr, All, IsByte,
}
use lsh.Parse.{SimpleBuffer, left, here, advance}
use lsh.Parse.Cursor.{View, left-View, here-View, Sees, Sees-head, Sees-tail, View-Sees}
use lsh.Parse.Utf8.{
  at_end, char, invalid, lead, Lead, sequence, other, no_length, read_sequence, min_value, excluded,
  finish_utf8, follow, parse_utf8,
}
use lsh.Parse.Utf8.RoundTrip.{utf8-ascii, length-utf8}
use lsh.Parse.Utf8.Encode.{high, groups, continuation, prefix, utf8}

-- The end of a sequence returns its value only if that is large enough and not excluded.
finish_utf8-inv :
    (i value c n : ℕ) (b b' : SimpleBuffer)
    → finish_utf8 i value b ≡ char c n b'
    → (value ≡ c) × (i ≡ n) × (advance i b ≡ b') × (min_value i ≤ c) × (excluded c ≡ false)
unfolding finish_utf8
finish_utf8-inv i value c n b b' e = ground arith

follow-inv :
    (k i value c n : ℕ) (s : List ℕ) (b b' : SimpleBuffer)
    → Sees b i s
    → All IsByte s
    → k ≤ length s
    → follow k i value b ≡ char c n b'
    → (t : List ℕ) × (s ≡ groups k c ++ t)
      × (value ≡ high k c)
      × (finish_utf8 (i + k) c b ≡ char c n b')
unfolding follow
follow-inv zero i value c n s b b' look bytes h e =
    let value_is : value ≡ c = (finish_utf8-inv i value c n b b' e).0 in
    (s, refl, value_is, cc (stay, value_is, e))
  where
    stay : i + 0 ≡ i
    stay = omega arith
follow-inv (suc k) i value c n [] b b' look bytes h e = absurd (omega arith)
follow-inv (suc k) i value c n (x ∷ s) b b' look bytes h e = elim (Bool-cases (x / 64 == 2)) [
  | inl hit ↦
      let (t, rest, whole, done) =
        follow-inv k (i + 1) (value * 64 + x % 64) c n s b b' (Sees-tail b i x s look) bytes.1
          (omega arith) (rw (Sees-head b i x s look, hit) at e) in
      (
        t,
        ground (arith, bytes.0),
        omega arith,
        rw (let q : i + suc k ≡ i + 1 + k = omega arith in q) done,
      )
  | inr miss ↦
      let q : invalid (some i) (advance i b) ≡ char c n b' =
        rw (Sees-head b i x s look, miss) at e in
      cc q
]

lead-inv :
    (k c x v : ℕ)
    → lead x ≡ sequence (suc k) v
    → x < 256
    → v ≡ high k c
    → min_value (suc k) ≤ c
    → (continuation c ≡ k) × (x ≡ prefix k + high k c) × (c < 2 ^ 31)
unfolding lead min_value
lead-inv zero c x v e b h m = ground arith
lead-inv (suc zero) c x v e b h m = ground arith
lead-inv (suc (suc zero)) c x v e b h m = ground arith
lead-inv (suc (suc (suc zero))) c x v e b h m = ground arith
lead-inv (suc (suc (suc (suc zero)))) c x v e b h m = ground arith
lead-inv (suc (suc (suc (suc (suc zero))))) c x v e b h m = ground arith
lead-inv (suc (suc (suc (suc (suc (suc k)))))) c x v e b h m = ground arith

abbrev Accepts : SimpleBuffer → SimpleBuffer → List ℕ → ℕ → ℕ → Type 0
Accepts b b' r c n =
    (t : List ℕ) × (r ≡ utf8 c ++ t)
    × (n ≡ length (utf8 c))
    × (b' ≡ advance n b)
    × (c < 2 ^ 31)
    × (excluded c ≡ false)

ascii-Accepts :
    (b b' : SimpleBuffer) (r : List ℕ) (c n : ℕ)
    → ltb c 0x80 ≡ true
    → 1 ≡ n
    → advance 1 b ≡ b'
    → Accepts b b' (c ∷ r) c n
unfolding excluded
ascii-Accepts b b' r c n h en eb =
    rw (utf8-ascii c h)
      (r, refl, sym en, rw (← en) (sym eb), omega (arith, below), ground (arith, below))
  where
    below : c < 0x80
    below = ground arith

utf8-parts : (c k : ℕ) → continuation c ≡ k → utf8 c ≡ (prefix k + high k c) ∷ groups k c
unfolding utf8
utf8-parts c k h = ap {A = ℕ} (λ j. (prefix j + high j c) ∷ groups j c) h

-- A sequence whose first byte announces `suc k` bytes, all of them there.
followed-Accepts :
    (b b' : SimpleBuffer) (x : ℕ) (r : List ℕ) (c n k value : ℕ)
    → View b (x ∷ r)
    → IsByte x
    → All IsByte r
    → lead x ≡ sequence (suc k) value
    → ltb (length (x ∷ r)) (suc k) ≡ false
    → follow k 1 value b ≡ char c n b'
    → Accepts b b' (x ∷ r) c n
followed-Accepts b b' x r c n k value v byte bytes l fits e =
    let (t, rest, groups_of, done) =
      follow-inv k 1 value c n r b b' (Sees-tail b 0 x r (View-Sees b (x ∷ r) v)) bytes
        (ground arith) e in
    let (_, size, moved, least, kept) = finish_utf8-inv (1 + k) c c n b b' done in
    let (count, head, bound) =
      lead-inv k c x value l byte groups_of (rw (let q : suc k ≡ 1 + k = omega arith in q) least) in
    let parts = utf8-parts c k count in
    (
      t,
      rw (parts, rest, head) refl,
      sym size ∙ sym (length-utf8 c ∙ ap {A = ℕ} (λ j. 1 + j) count),
      rw (← size) (sym moved),
      bound,
      kept,
    )

sequence-Accepts :
    (b b' : SimpleBuffer) (x : ℕ) (r : List ℕ) (c n : ℕ) (l : Lead)
    → View b (x ∷ r)
    → IsByte x
    → All IsByte r
    → lead x ≡ l
    → read_sequence b l ≡ char c n b'
    → Accepts b b' (x ∷ r) c n
unfolding read_sequence
sequence-Accepts b b' x r c n other v byte bytes l e = cc e
sequence-Accepts b b' x r c n no_length v byte bytes l e = cc e
sequence-Accepts b b' x r c n (sequence zero value) v byte bytes l e =
    absurd (unfold lead in ground arith)
sequence-Accepts b b' x r c n (sequence (suc k) value) v byte bytes l e =
    elim (Bool-cases (ltb (left b) (suc k))) [
      | inl short ↦
          let q : invalid (some 1) (advance (left b) b) ≡ char c n b' = rw short at e in cc q
      | inr fits ↦
          followed-Accepts b b' x r c n k value v byte bytes l (rw (left-View v) at fits)
            (rw (fits, let q : suc k - 1 ≡ k = omega arith in q) at e)
    ]

-- Every character that is returned stood in its shortest encoding at the cursor, is not excluded and
-- has 31 bits at most; the length is the encoding's and the cursor has moved past it.
pub parse_utf8_sound :
    (b b' : SimpleBuffer) (r : List ℕ) (c n : ℕ)
    → View b r
    → All IsByte r
    → parse_utf8 b ≡ char c n b'
    → (t : List ℕ) × (r ≡ utf8 c ++ t)
      × (n ≡ length (utf8 c))
      × (b' ≡ advance n b)
      × (c < 2 ^ 31)
      × (excluded c ≡ false)
unfolding parse_utf8
parse_utf8_sound b b' [] c n v bytes e =
    let q : at_end b ≡ char c n b' = rw (left-View v) at e in cc q
parse_utf8_sound b b' (x ∷ r) c n v bytes e = elim (Bool-cases (ltb x 0x80)) [
  | inl small ↦
      let q : char x 1 (advance 1 b) ≡ char c n b' = rw (some_left, first, small) at e in
      let same : x ≡ c = cc q in rw same (ascii-Accepts b b' r c n (rw same at small) (cc q) (cc q))
  | inr large ↦
      sequence-Accepts b b' x r c n (lead x) v bytes.0 bytes.1 refl
        (rw (some_left, first, large) at e)
]
  where
    some_left : (left b == 0) ≡ false
    some_left = rw (left-View v) (ground arith)

    first : here b 0 ≡ x
    first = here-View v 0 (omega arith)
