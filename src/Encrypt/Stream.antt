-- ===== src/Encrypt/Stream.antt =====
-- src/encrypt.c as the function that transport_write.c calls.
use lsh.Prelude.{
  ℕ, ◌+◌, ◌^◌, ◌≤◌, ◌<◌, ◌≡◌, refl, List, ◌++◌, length-append, ◌==◌, leb, length, Option, none,
  some, false, true, returns, arith,
}
use lsh.LshString.{uint32_bytes}
use lsh.Format.{Externals}
use lsh.TransportWrite.{Keys}
use lsh.TransportWrite.Packets.{Encrypts}
use lsh.Encrypt.{
  Objects, block_size_of, mac_size_of, deflate_packet, padding_length, encrypt_packet,
}
use lsh.Encrypt.Frame.{frame_head}
use lsh.Encrypt.Packet.{frame, signature, ciphertext, encrypt_packet_lem}

-- Objects as crypto.c has them: blocks of at most 252 bytes, MACs of less than 2^16, and compressed data
-- that fits in the 35000 bytes for it where the packet is no larger than SSH_MAX_PACKET, as zlib's is.
pub record IsUsable {M C D : Type 0} (objects : Objects M C D) : Type 0 where
  pub blocks : (c : C) → (0 < objects.block_size c) × (objects.block_size c ≤ 252)
  pub macs : (m : M) → objects.mac_size m < 2 ^ 16
  pub compressed :
      (d : D) (packet : List ℕ)
      → 0 < length packet
      → length packet ≤ 2 ^ 15
      → (0 < length (objects.codec d packet).0) × (length (objects.codec d packet).0 ≤ 35000)

module _ {M C D : Type 0} (objects : Objects M C D) where
  abbrev pub payload_of : Option D → List ℕ → List ℕ × Option D
  payload_of none packet = (packet, none)
  payload_of (some d) packet = let (out, d') = objects.codec d packet in (out, some d')

  -- The encrypted packet and the objects behind it.
  abbrev pub sealed : (ℕ → List ℕ) → Keys M C D → ℕ → List ℕ → List ℕ × Keys M C D
  sealed random_bytes keys seqno packet =
      let (payload, deflate) = payload_of keys.deflate packet in
      let bytes = frame objects (block_size_of objects keys.crypto) random_bytes payload in
      (
        (ciphertext objects keys.crypto bytes).0 ++ (signature objects keys.mac seqno bytes).0,
        record {
          mac = (signature objects keys.mac seqno bytes).1;
          crypto = (ciphertext objects keys.crypto bytes).1;
          deflate = deflate;
        },
      )

  deflate_packet_lem :
      (deflate : Option D) (fresh : ℕ → List ℕ) (packet : List ℕ)
      → ((n : ℕ) → length (fresh n) ≡ n)
      → IsUsable objects
      → (0 < length packet) × (length packet ≤ 2 ^ 15)
      → (deflate_packet objects deflate fresh packet ≡ returns (payload_of deflate packet))
        × (length (payload_of deflate packet).0 < 2 ^ 20)
  unfolding deflate_packet
  deflate_packet_lem none fresh packet sized usable (some_bytes, few) = (refl, omega arith)
  deflate_packet_lem (some d) fresh packet sized usable (some_bytes, few) =
      let (some_out, fits) = usable.compressed d packet some_bytes few in
      let z : (length (objects.codec d packet).0 == 0) ≡ false = ground arith in
      let room : leb (length (objects.codec d packet).0) (length (fresh 35000)) ≡ true =
        ground (arith, sized 35000) in
      (rw (z, room) refl, omega arith)

  blocks_of :
      (crypto : Option C)
      → IsUsable objects
      → (0 < block_size_of objects crypto) × (block_size_of objects crypto ≤ 252)
  blocks_of none usable = (omega arith, omega arith)
  blocks_of (some c) usable = usable.blocks c

  macs_of : (mac : Option M) → IsUsable objects → mac_size_of objects mac < 2 ^ 16
  macs_of none usable = omega arith
  macs_of (some m) usable = usable.macs m

  pub length-ciphertext :
      (crypto : Option C) (bytes : List ℕ)
      → length (ciphertext objects crypto bytes).0 ≡ length bytes
  length-ciphertext none bytes = refl
  length-ciphertext (some c) bytes = objects.length-crypt c bytes

  length-signature :
      (mac : Option M) (seqno : ℕ) (bytes : List ℕ)
      → IsUsable objects
      → length (signature objects mac seqno bytes).0 < 2 ^ 16
  length-signature none seqno bytes usable = omega arith
  length-signature (some m) seqno bytes usable =
      let k = objects.mac_update (objects.mac_update m (uint32_bytes seqno)) bytes in
      omega (arith, objects.length-mac_digest k, usable.macs k)

  -- encrypt_packet with usable objects is a function that transport_write_packet can use: on a packet
  -- that is not empty and has at most 2^15 bytes it returns the sealed frame, of less than 2^24 bytes.
  pub encrypt_packet-Encrypts :
      (ext : Externals) (fresh random_bytes : ℕ → List ℕ)
      → ((n : ℕ) → length (fresh n) ≡ n) × ((n : ℕ) → length (random_bytes n) ≡ n)
      → IsUsable objects
      → Encrypts (encrypt_packet objects ext fresh random_bytes) (sealed random_bytes)
  encrypt_packet-Encrypts ext fresh random_bytes (sized, random) usable keys seqno packet some_bytes
        few =
      let (d, fits) = deflate_packet_lem keys.deflate fresh packet sized usable (some_bytes, few) in
      let payload = (payload_of keys.deflate packet).0 in
      let b = block_size_of objects keys.crypto in
      let p = padding_length b (length payload) in
      let bytes = frame objects b random_bytes payload in
      let (e, whole, least, most) =
        encrypt_packet_lem objects ext fresh random_bytes keys seqno packet payload
          (payload_of keys.deflate packet).1 (sized, random) some_bytes d (omega arith)
          (blocks_of keys.crypto usable) (macs_of keys.mac usable) in
      let total : length bytes ≡ length payload + 5 + p =
        omega (arith, length-append (frame_head payload p) (random_bytes p), random p) in
      let sum =
        length-append (ciphertext objects keys.crypto bytes).0
          (signature objects keys.mac seqno bytes).0 in
      let same = length-ciphertext keys.crypto bytes in
      let tag = length-signature keys.mac seqno bytes usable in (e, omega arith, omega arith)
