-- ===== src/Parse/Utf8/RoundTrip.antt =====
-- parse_utf8 accepts exactly the shortest encodings of the characters that are not excluded.
use lsh.Prelude.{
  ℕ, zero, suc, ◌+◌, ◌^◌, ◌<◌, ◌≤◌, ◌≡◌, refl, ap, ◌∙◌, true, false, List, [], ◌∷◌, ◌++◌, arith,
  length, ltb, ◌==◌, Bool-cases, inl, inr, length-append,
}
use lsh.Parse.{SimpleBuffer, left, advance}
use lsh.Parse.Cursor.{View, left-View, here-View, Sees-tail, View-Sees}
use lsh.Parse.Utf8.{
  char, lead, sequence, read_sequence, min_value, excluded, finish_utf8, follow, parse_utf8,
}
use lsh.Parse.Utf8.Encode.{
  high, groups, continuation, prefix, utf8, follow-groups, lead-prefix, first_byte,
  min_value-continuation,
}

pub length-groups : (k c : ℕ) → length (groups k c) ≡ k
length-groups zero c = refl
length-groups (suc k) c = ap suc (length-groups k c)

finish_utf8-char :
    (n c : ℕ) (b : SimpleBuffer)
    → min_value n ≤ c
    → excluded c ≡ false
    → finish_utf8 n c b ≡ char c n (advance n b)
unfolding finish_utf8
finish_utf8-char n c b h e = ground arith

-- A sequence whose first byte announces `suc k` bytes, all of them there.
parse_utf8-sequence :
    (b : SimpleBuffer) (x k value : ℕ) (s : List ℕ)
    → View b (x ∷ s)
    → 0xC0 ≤ x
    → lead x ≡ sequence (suc k) value
    → k ≤ length s
    → parse_utf8 b ≡ follow k 1 value b
unfolding parse_utf8 read_sequence
parse_utf8-sequence b x k value s v h e room =
    rw (some_left, here-View v 0 (omega arith), high_byte, e, fits)
      (ap {A = ℕ} (λ n. follow n 1 value b) (omega arith))
  where
    some_left : (left b == 0) ≡ false
    some_left = rw (left-View v) (ground arith)

    high_byte : ltb x 0x80 ≡ false
    high_byte = ground arith

    fits : ltb (left b) (suc k) ≡ false
    fits = rw (left-View v) (ground arith)

parse_utf8-ascii :
    (b : SimpleBuffer) (c : ℕ) (r : List ℕ)
    → View b (c ∷ r)
    → ltb c 0x80 ≡ true
    → parse_utf8 b ≡ char c 1 (advance 1 b)
unfolding parse_utf8
parse_utf8-ascii b c r v h = rw (some_left, here-View v 0 (omega arith), h) refl
  where
    some_left : (left b == 0) ≡ false
    some_left = rw (left-View v) (ground arith)

pub length-utf8 : (c : ℕ) → length (utf8 c) ≡ 1 + continuation c
unfolding utf8
length-utf8 c = omega (arith, length-groups (continuation c) c)

pub utf8-ascii : (c : ℕ) → ltb c 0x80 ≡ true → utf8 c ≡ c ∷ []
unfolding utf8
utf8-ascii c h = rw h (ground arith)

-- The encoding of every character of up to 31 bits that is not excluded is read back, whatever
-- follows it, and the cursor moves past the encoding.
pub parse_utf8-utf8 :
    (b : SimpleBuffer) (c : ℕ) (r : List ℕ)
    → View b (utf8 c ++ r)
    → c < 2 ^ 31
    → excluded c ≡ false
    → parse_utf8 b ≡ char c (length (utf8 c)) (advance (length (utf8 c)) b)
parse_utf8-utf8 b c r v h e = elim (Bool-cases (ltb c 0x80)) [
  | inl small ↦
      rw (utf8-ascii c small) (parse_utf8-ascii b c r (rw (utf8-ascii c small) at v) small)
  | inr large ↦ rw (length-utf8 c) (
      parse_utf8-sequence b _ (continuation c) (high (continuation c) c)
        (groups (continuation c) c ++ r) spread (first_byte c (ground arith))
        (lead-prefix c (ground arith) h)
        (omega
          (arith, length-append (groups (continuation c) c) r, length-groups (continuation c) c))
      ∙ follow-groups (continuation c) 1 c r b
          (Sees-tail b 0 _ (groups (continuation c) c ++ r) (View-Sees b _ spread))
      ∙ finish_utf8-char (1 + continuation c) c b (minimal (ground arith)) e)
]
  where
    spread :
        View b
          ((prefix (continuation c) + high (continuation c) c) ∷ (groups (continuation c) c ++ r))
    spread = unfold utf8 in v

    minimal : 0x80 ≤ c → min_value (1 + continuation c) ≤ c
    minimal k =
        rw (let q : 1 + continuation c ≡ suc (continuation c) = omega arith in q)
          (min_value-continuation c k)
