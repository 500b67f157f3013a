-- ===== src/Keyexchange/Keys.antt =====
-- src/keyexchange.c: kex_build_secret and kex_make_key, the keys from the shared secret.
pub mod Stream
use lsh.Prelude.{
  ℕ, zero, suc, ◌+◌, ◌*◌, ◌<◌, ◌≤◌, ◌^◌, ◌≡◌, refl, sym, ap, ◌∙◌, true, false, List, [], ◌∷◌, ◌++◌,
  append_assoc, append-nil, if◌then◌else◌, ◌==◌, leb, not, add32, sub32, length, take, get_or, Run,
  aborted, returns, then_run, arith, Bool-cases, inl, inr, length-append, length-take,
}
use lsh.LshString.{lsh_string_write}
use lsh.LshString.Cells.{
  solid, fill, fill_at, length-solid, solid-append, length-fill_at, fill_at-after, fill-all,
  lsh_string_write-room,
}
use lsh.Format.{Externals, lsh_string}
use lsh.Format.Write.{ssh_format}

-- A hash function of Nettle; a hash instance is the bytes that it was updated with.
pub record Hash : Type 0 where
  pub digest_size : ℕ
  pub digest : List ℕ → List ℕ
  pub length-digest : (input : List ℕ) → length (digest input) ≡ digest_size

unfoldable pub kex_build_secret : Externals → (ℕ → List ℕ) → List ℕ → List ℕ → Run (List ℕ)
kex_build_secret ext fresh exchange_hash k =
    ssh_format ext fresh (b'%' ∷ b'f' ∷ b'S' ∷ b'%' ∷ b'l' ∷ b'S' ∷ [])
      (lsh_string k ∷ lsh_string exchange_hash ∷ [])

-- "CDEFAB"
abbrev pub tags : List ℕ
tags = b'C' ∷ b'D' ∷ b'E' ∷ b'F' ∷ b'A' ∷ b'B' ∷ []

-- `IV_TYPE(t)`
abbrev pub iv_type : ℕ → ℕ
iv_type t = t + 4

module _ (h : Hash) where
  -- The loop that appends digests to the key; without fuel it would count as a failed assertion.
  unfoldable pub expand_key : ℕ → ℕ → List ℕ → ℕ → ℕ → List ℕ → List ℕ → Run (List ℕ)
  expand_key zero key_length key pos left hash digest = aborted
  expand_key (suc fuel) key_length key pos left hash digest =
      let pos' = add32 pos h.digest_size in
      let left' = sub32 left h.digest_size in
      let hash' = hash ++ digest in
      let next = h.digest hash' in
      if not (add32 pos left == key_length)
      then aborted
      else then_run (lsh_string_write key pos digest) (λ key'.
        let more = expand_key fuel key_length key' pos' left' hash' next in
        if leb left' h.digest_size then lsh_string_write key' pos' (take left' next) else more)

  unfoldable pub kex_make_key : (ℕ → List ℕ) → List ℕ → ℕ → ℕ → List ℕ → Run (List ℕ)
  unfolding expand_key
  kex_make_key fresh secret key_length type session_id =
      let key = fresh key_length in
      let digest = h.digest (secret ++ (get_or tags type 0 ∷ session_id)) in
      if key_length == 0
      then returns key
      else if leb key_length h.digest_size
      then lsh_string_write key 0 (take key_length digest)
      else expand_key key_length key_length key 0 key_length secret digest

  -- The bytes that RFC 4253 derives keys from: after `w` and the block `d`, `n` more blocks, each the
  -- digest of the secret and all blocks before it.
  abbrev pub blocks : ℕ → List ℕ → List ℕ → List ℕ → List ℕ
  blocks zero secret w d = w ++ d
  blocks (suc n) secret w d = blocks n secret (w ++ d) (h.digest (secret ++ (w ++ d)))

  abbrev pub key_stream : ℕ → List ℕ → ℕ → List ℕ → List ℕ
  key_stream n secret type session_id =
      blocks n secret [] (h.digest (secret ++ (get_or tags type 0 ∷ session_id)))
