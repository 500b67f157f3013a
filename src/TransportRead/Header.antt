-- ===== src/TransportRead/Header.antt =====
-- src/transport_read.c: the header of a packet.
use lsh.Prelude.{
  ℕ, ◌+◌, ◌-◌, ◌%◌, ◌^◌, ◌≤◌, ◌<◌, ◌≡◌, refl, ap, ◌∙◌, false, not, ◌||◌, List, [], ◌∷◌, ◌++◌, ◌==◌,
  ltb, leb, length, add32, sub32, none, arith,
}
use lsh.LshString.{uint32_bytes}
use lsh.Format.Packets.{read_uint32-bytes}
use lsh.Encrypt.{Objects, block_size_of, mac_size_of}
use lsh.Encrypt.Packet.{ciphertext}
use lsh.TransportRead.{TransportReadState, crypt_at, update_mac, check_header, process_header}
use lsh.TransportRead.Mac.{take-front-of, crypt_at_lem, mac_size-update_mac}

module _ {M C D : Type 0} (objects : Objects M C D) where
  -- The first block, which is decrypted alone, starts with the header.
  pub process_header_lem :
      (self : TransportReadState M C D) (n p : ℕ) (front first behind : List ℕ)
      → self.super.input ≡ first ++ behind
      → (ciphertext objects self.crypto first).0 ≡ uint32_bytes n ++ (p ∷ front)
      → block_size_of objects self.crypto ≡ length first
      → length first ≡ length front + 5
      → (n < 2 ^ 31) × (12 ≤ n) × (n ≤ 35000) × (length front + 1 ≤ n)
      → (n + 4) % block_size_of objects self.crypto ≡ 0
      → (4 ≤ p) × (p < n)
      → mac_size_of objects self.mac < 2 ^ 16
      → n - 1 + mac_size_of objects self.mac ≤ self.super.size
      → process_header objects self ≡ (
        record self {
          super = record self.super { start = add32 self.super.start 5; input = front ++ behind };
          mac =
              update_mac objects
                (update_mac objects self.mac (uint32_bytes self.seqno))
                (uint32_bytes n ++ (p ∷ front));
          crypto = (ciphertext objects self.crypto first).1;
          padding = p;
          total_length = n - 1 + mac_size_of objects self.mac;
        },
        none,
      )
  unfolding process_header check_header
  process_header_lem self n p front first behind at dec block size (small, least, most, long) whole
        (pl, pm) macs room =
      rw
        (
          crypted,
          read_uint32-bytes n (omega arith),
          padded,
          sized,
          take-front-of (block_size_of objects self.crypto) (uint32_bytes n ++ (p ∷ front)) behind
              (omega arith),
          mac_size-update_mac objects (update_mac objects self.mac (uint32_bytes self.seqno))
              (uint32_bytes n ++ (p ∷ front)),
          mac_size-update_mac objects self.mac (uint32_bytes self.seqno),
          fits,
          roomy,
          total,
        )
        refl
    where
      crypted :
          crypt_at objects self.crypto 0 (block_size_of objects self.crypto) self.super.input
          ≡ (uint32_bytes n ++ (p ∷ (front ++ behind)), (ciphertext objects self.crypto first).1)
      crypted =
          ap {A = List ℕ} (crypt_at objects self.crypto 0 (block_size_of objects self.crypto)) at
          ∙ crypt_at_lem objects self.crypto 0 (block_size_of objects self.crypto) [] first behind
              refl block
          ∙ ap {A = List ℕ} (λ xs. (xs ++ behind, (ciphertext objects self.crypto first).1)) dec

      padded : (ltb p 4 || leb n p) ≡ false
      padded = ground arith

      sized :
          (ltb n 12
            || (ltb n (sub32 (block_size_of objects self.crypto) 4)
                || not (add32 n 4 % block_size_of objects self.crypto == 0)))
          ≡ false
      sized = let sum : add32 n 4 ≡ n + 4 = omega arith in rw (sum, whole) (ground arith)

      total :
          add32 (sub32 n 1) (mac_size_of objects self.mac) ≡ n - 1 + mac_size_of objects self.mac
      total = omega arith

      fits : ltb 35000 n ≡ false
      fits = ground arith

      roomy : ltb self.super.size (add32 (sub32 n 1) (mac_size_of objects self.mac)) ≡ false
      roomy = rw total (ground arith)
