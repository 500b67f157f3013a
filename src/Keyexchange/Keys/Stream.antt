-- ===== src/Keyexchange/Keys/Stream.antt =====
-- src/keyexchange.c: kex_make_key gives the first bytes of the key stream of RFC 4253.
use lsh.Prelude.{
  ℕ, zero, suc, ◌+◌, ◌<◌, ◌≤◌, ◌^◌, ◌≡◌, refl, sym, ap, ◌∙◌, true, List, [], ◌∷◌, ◌++◌,
  append_assoc, append-nil, ◌==◌, leb, add32, sub32, length, take, get_or, returns, arith,
  Bool-cases, inl, inr, length-append, length-take,
}
use lsh.LshString.{lsh_string_write}
use lsh.LshString.Cells.{
  solid, fill, length-solid, solid-append, length-fill_at, fill_at-after, fill-all,
  lsh_string_write-room,
}
use lsh.Parse.Cursor.{take-front}
use lsh.Keyexchange.Keys.{Hash, tags, expand_key, kex_make_key, blocks, key_stream}

no-bytes : (xs ys : List ℕ) → length xs ≡ 0 → length ys ≡ 0 → xs ≡ ys
no-bytes [] [] e f = refl
no-bytes (x ∷ xs) ys e f = absurd (omega arith)
no-bytes [] (y ∷ ys) e f = absurd (omega arith)

take-within :
    (t d : List ℕ) (k m : ℕ)
    → m ≡ length t + k
    → k ≤ length d
    → (more : List ℕ) → take m ((t ++ d) ++ more) ≡ t ++ take k d
take-within [] d k m e h more = rw (let z : m ≡ k = omega arith in z) (take-front k d more h)
take-within (x ∷ t) d k zero e h more = absurd (omega arith)
take-within (x ∷ t) d k (suc m) e h more = ap (◌∷◌ x) (take-within t d k m (omega arith) h more)

-- Writes of `w` from the front of a fresh key, then of `d` behind it.
write-after :
    (base w d : List ℕ)
    → length w + length d ≤ length base
    → lsh_string_write (fill (solid w) base) (length w) d ≡ returns (fill (solid (w ++ d)) base)
write-after base w d h =
    lsh_string_write-room (fill (solid w) base) (length w) d
      (omega (arith, length-fill_at base 0 (solid w)))
    ∙ ap {A = List ℕ} returns (
        fill_at-after base 0 (length w) (solid w) (solid d) (omega (arith, length-solid w))
          (omega arith)
        ∙ ap (λ c. fill c base) (sym (solid-append w d)))

module _ (h : Hash) where
  -- The stream goes on behind its first block.
  blocks-front :
      (n : ℕ) (secret w d : List ℕ) → (more : List ℕ) × (blocks h n secret w d ≡ (w ++ d) ++ more)
  blocks-front zero secret w d = ([], sym (append-nil (w ++ d)))
  blocks-front (suc n) secret w d =
      let next = h.digest (secret ++ (w ++ d)) in
      let (more, e) = blocks-front n secret (w ++ d) next in
      (next ++ more, e ∙ append_assoc (w ++ d) next more)

  -- The last block, of which `k` bytes are used.
  last-block :
      (n : ℕ) (secret w d : List ℕ) (k m : ℕ)
      → m ≡ length w + k
      → k ≤ length d
      → w ++ take k d ≡ take m (blocks h n secret w d)
  last-block n secret w d k m e b =
      let (more, f) = blocks-front n secret w d in rw f (sym (take-within w d k m e b more))

  -- The write that completes the key.
  write-last :
      (n : ℕ) (secret base w d : List ℕ) (k m : ℕ)
      → m ≡ length w + k
      → length base ≡ m
      → k ≤ length d
      → lsh_string_write (fill (solid w) base) (length w) (take k d)
        ≡ returns (take m (blocks h n secret w d))
  write-last n secret base w d k m e b l =
      write-after base w (take k d) (omega (arith, length-take k d))
      ∙ ap {A = List ℕ} returns (
          fill-all (w ++ take k d) base (omega (arith, length-append w (take k d), length-take k d))
          ∙ last-block n secret w d k m e l)

  expand_key-blocks :
      (fuel key_length n : ℕ) (secret base w d : List ℕ) (left : ℕ)
      → key_length < 2 ^ 32
      → 0 < h.digest_size
      → length base ≡ key_length
      → length w + left ≡ key_length
      → left ≤ fuel
      → length d ≡ h.digest_size
      → h.digest_size < left
      → key_length ≤ length (blocks h n secret w d)
      → expand_key h fuel key_length (fill (solid w) base) (length w) left (secret ++ w) d
        ≡ returns (take key_length (blocks h n secret w d))
  unfolding expand_key
  expand_key-blocks zero key_length n secret base w d left small pos b e f s l long =
      absurd (omega arith)
  expand_key-blocks (suc fuel) key_length zero secret base w d left small pos b e f s l long =
      absurd (omega (arith, length-append w d))
  expand_key-blocks (suc fuel) key_length (suc n) secret base w d left small pos b e f s l long =
      elim (Bool-cases (leb (sub32 left h.digest_size) h.digest_size)) [
        | inl stop ↦
            rw (sum, moved, write-after base w d (omega arith), assoc, stop)
              (write-last n secret base (w ++ d) (h.digest (secret ++ (w ++ d)))
                (sub32 left h.digest_size) key_length (omega (arith, length-append w d)) b
                (ground (arith, h.length-digest (secret ++ (w ++ d)))))
        | inr on ↦
            rw (sum, moved, write-after base w d (omega arith), assoc, on)
              (expand_key-blocks fuel key_length n secret base (w ++ d)
                (h.digest (secret ++ (w ++ d))) (sub32 left h.digest_size) small pos b
                (omega (arith, length-append w d)) (omega arith)
                (h.length-digest (secret ++ (w ++ d))) (ground arith) long)
      ]
    where
      sum : (add32 (length w) left == key_length) ≡ true
      sum = ground arith

      moved : add32 (length w) h.digest_size ≡ length (w ++ d)
      moved = omega (arith, length-append w d)

      assoc : (secret ++ w) ++ d ≡ secret ++ (w ++ d)
      assoc = append_assoc secret w d

  -- With a hash function of digests that are not empty, kex_make_key returns a key of any length below
  -- 2^32, without a failed assertion: the first bytes of the key stream of RFC 4253, of which `n` and
  -- one blocks are long enough.
  pub kex_make_key-key_stream :
      (fresh : ℕ → List ℕ) (secret : List ℕ) (key_length type : ℕ) (session_id : List ℕ) (n : ℕ)
      → ((m : ℕ) → length (fresh m) ≡ m)
      → 0 < h.digest_size
      → key_length < 2 ^ 32
      → key_length ≤ length (key_stream h n secret type session_id)
      → kex_make_key h fresh secret key_length type session_id
        ≡ returns (take key_length (key_stream h n secret type session_id))
  unfolding kex_make_key
  kex_make_key-key_stream fresh secret key_length type session_id n sized pos small long =
      elim (Bool-cases (key_length == 0)) [
        | inl z ↦ rw z (
            ap {A = List ℕ} returns (
              no-bytes (fresh key_length) (take key_length (key_stream h n secret type session_id))
                (ground (arith, sized key_length))
                (ground (arith, length-take key_length (key_stream h n secret type session_id)))))
        | inr z ↦ elim (Bool-cases (leb key_length h.digest_size)) [
          | inl short ↦
              rw (z, short)
                (write-last n secret (fresh key_length) [] first key_length key_length (omega arith)
                  (sized key_length)
                  (ground (arith, h.length-digest (secret ++ (get_or tags type 0 ∷ session_id)))))
          | inr more ↦
              rw (z, more)
                (rw (append-nil secret) at (
                  expand_key-blocks key_length key_length n secret (fresh key_length) [] first
                    key_length small pos (sized key_length) (omega arith) (omega arith)
                    (h.length-digest (secret ++ (get_or tags type 0 ∷ session_id))) (ground arith)
                    long))
        ]
      ]
    where
      first : List ℕ
      first = h.digest (secret ++ (get_or tags type 0 ∷ session_id))
