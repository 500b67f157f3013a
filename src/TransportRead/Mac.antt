-- ===== src/TransportRead/Mac.antt =====
-- src/transport_read.c: the decryption in place, and the MAC.
use lsh.Prelude.{
  ℕ, ◌≡◌, refl, ap, ◌∙◌, true, List, [], ◌∷◌, ◌++◌, ◌==◌, length, take, drop, take-append,
  drop-append, Option, none, some, arith,
}
use lsh.LshString.{uint32_bytes}
use lsh.Encrypt.{Objects, block_size_of, mac_size_of}
use lsh.Encrypt.Packet.{signature, ciphertext}
use lsh.TransportRead.{same_bytes, crypt_at, update_mac, check_mac}

pub no-bytes : (xs : List ℕ) → length xs ≡ 0 → xs ≡ []
no-bytes [] e = refl
no-bytes (x ∷ xs) e = absurd (omega arith)

pub same_bytes_refl : (xs : List ℕ) → same_bytes xs xs ≡ true
same_bytes_refl [] = refl
same_bytes_refl (x ∷ xs) = let e : (x == x) ≡ true = ground arith in rw (e) (same_bytes_refl xs)

pub take-front-of : (n : ℕ) (xs ys : List ℕ) → n ≡ length xs → take n (xs ++ ys) ≡ xs
take-front-of n xs ys e = rw e (take-append xs ys)

pub drop-front-of : (n : ℕ) (xs ys : List ℕ) → n ≡ length xs → drop n (xs ++ ys) ≡ ys
drop-front-of n xs ys e = rw e (drop-append xs ys)

module _ {M C D : Type 0} (objects : Objects M C D) where
  -- In place, the bytes between two others are decrypted.
  pub crypt_at_lem :
      (crypto : Option C) (i l : ℕ) (before bytes behind : List ℕ)
      → i ≡ length before
      → l ≡ length bytes
      → crypt_at objects crypto i l (before ++ (bytes ++ behind)) ≡ (
        before ++ ((ciphertext objects crypto bytes).0 ++ behind),
        (ciphertext objects crypto bytes).1,
      )
  unfolding crypt_at
  crypt_at_lem none i l before bytes behind e f = refl
  crypt_at_lem (some c) i l before bytes behind e f =
      rw
        (
          drop-front-of i before (bytes ++ behind) e,
          take-front-of i before (bytes ++ behind) e,
          take-front-of l bytes behind f,
          drop-front-of l bytes behind f,
        )
        refl

  -- Updates of a MAC may be split.
  abbrev pub IsStream : Type 0
  IsStream =
      ((m : M) → objects.mac_update m [] ≡ m)
      × ((m : M) (a b : List ℕ)
          → objects.mac_update (objects.mac_update m a) b ≡ objects.mac_update m (a ++ b))

  pub update_mac-append :
      (mac : Option M) (a b : List ℕ)
      → IsStream
      → update_mac objects (update_mac objects mac a) b ≡ update_mac objects mac (a ++ b)
  update_mac-append none a b h = refl
  update_mac-append (some m) a b (h, k) = ap some (k m a b)

  pub update_mac-nil : (mac : Option M) → IsStream → update_mac objects mac [] ≡ mac
  update_mac-nil none h = refl
  update_mac-nil (some m) (h, k) = ap some (h m)

  -- The check of a MAC that was made of the same bytes.
  pub check_mac_lem :
      (mac : Option M) (seqno : ℕ) (bytes : List ℕ)
      → check_mac objects
          (update_mac objects (update_mac objects mac (uint32_bytes seqno)) bytes)
          (signature objects mac seqno bytes).0
        ≡ (true, (signature objects mac seqno bytes).1)
  unfolding check_mac
  check_mac_lem none seqno bytes = refl
  check_mac_lem (some m) seqno bytes =
      rw
        (same_bytes_refl
          (objects.mac_digest
            (objects.mac_update (objects.mac_update m (uint32_bytes seqno)) bytes)).0)
        refl

  pub length-signature :
      (mac : Option M) (seqno : ℕ) (bytes : List ℕ)
      → length (signature objects mac seqno bytes).0 ≡ mac_size_of objects mac
  length-signature none seqno bytes = refl
  length-signature (some m) seqno bytes =
      objects.length-mac_digest
        (objects.mac_update (objects.mac_update m (uint32_bytes seqno)) bytes)
      ∙ objects.mac_size-update (objects.mac_update m (uint32_bytes seqno)) bytes
      ∙ objects.mac_size-update m (uint32_bytes seqno)

  pub mac_size-update_mac :
      (mac : Option M) (bytes : List ℕ)
      → mac_size_of objects (update_mac objects mac bytes) ≡ mac_size_of objects mac
  mac_size-update_mac none bytes = refl
  mac_size-update_mac (some m) bytes = objects.mac_size-update m bytes

  pub block_size-ciphertext :
      (crypto : Option C) (bytes : List ℕ)
      → block_size_of objects (ciphertext objects crypto bytes).1 ≡ block_size_of objects crypto
  block_size-ciphertext none bytes = refl
  block_size-ciphertext (some c) bytes = objects.block_size-crypt c bytes
