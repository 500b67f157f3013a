-- ===== src/TransportRead/RoundTrip.antt =====
-- src/encrypt.c and src/transport_read.c: what one side encrypts, the other reads.
use lsh.Prelude.{
  ℕ, ◌+◌, ◌≤◌, ◌<◌, ◌≡◌, refl, sym, ap, ◌∙◌, Bool, List, ◌++◌, length-append, length, Option, none,
  Run, aborted, returns, arith, inl, inr,
}
use lsh.Format.{Externals}
use lsh.TransportWrite.{Keys}
use lsh.Encrypt.{
  Objects, block_size_of, mac_size_of, deflate_packet, new_size, padding_length, encrypt_packet,
}
use lsh.Encrypt.Frame.{padding_length_lem}
use lsh.Encrypt.Packet.{frame, signature, ciphertext, encrypt_packet_lem}
use lsh.Encrypt.Stream.{length-ciphertext}
use mathlib.Core.Path.{subst}
use lsh.SshRead.{Input}
use lsh.TransportRead.{TransportReadState, transport_read_packet}
use lsh.TransportRead.Mac.{IsStream, length-signature}
use lsh.TransportRead.Packets.{Reads}
use lsh.TransportRead.Sealed.{Linked, Reads-sealed}

module _ {M C D : Type 0} (objects : Objects M C D) where
  deflate_packet-stored :
      (fresh : ℕ → List ℕ) (packet : List ℕ)
      → deflate_packet objects none fresh packet ≡ returns (packet, none)
  unfolding deflate_packet
  deflate_packet-stored fresh packet = refl

  -- A packet of at most 34000 bytes that encrypt_packet made, at the front of the input of the linked
  -- reader, with room for it in the reader's buffer, is read in one call, without a failed assertion: the
  -- result is its payload and its sequence number, and what stands behind it is left for the next call.
  pub transport_read_packet-encrypt_packet :
      (ext : Externals) (fresh random_bytes : ℕ → List ℕ) (keys after : Keys M C D) (seqno : ℕ)
      (packet encrypted rest : List ℕ) (self : TransportReadState M C D) (may_read : Bool)
      (input : Input) (output_size : ℕ)
      → ((n : ℕ) → length (fresh n) ≡ n) × ((n : ℕ) → length (random_bytes n) ≡ n)
      → IsStream objects
      → Linked objects keys seqno self
      → (0 < length packet) × (length packet ≤ 34000) × (length packet ≤ output_size)
      → encrypt_packet objects ext fresh random_bytes keys seqno packet ≡ returns (encrypted, after)
      → length encrypted ≤ self.super.size
      → self.super.input ≡ encrypted ++ rest
      → Reads objects self packet rest after.mac
          (transport_read_packet objects self may_read input output_size)
  transport_read_packet-encrypt_packet ext fresh random_bytes keys after seqno packet encrypted rest
        self may_read input output_size (sized, random) stream linked (some_bytes, few, room) enc
        fits at =
      subst
        (λ m.
          Reads objects self packet rest m
            (transport_read_packet objects self may_read input output_size))
        (sym mac_lem)
        (Reads-sealed objects random_bytes keys packet rest self may_read input output_size random
          stream linked_here (some_bytes, few, room) (omega (arith, encrypted_long))
          (at ∙ ap {A = List ℕ} (λ xs. xs ++ rest) bytes_read))
    where
      b : ℕ
      b = block_size_of objects self.crypto

      linked_here : Linked objects keys self.seqno self
      linked_here = subst (λ q. Linked objects keys q self) (sym linked.same_seqno) linked

      sent : ℕ → Option M → ℕ → List ℕ × Option M
      sent size mac number = (
        (ciphertext objects keys.crypto (frame objects size random_bytes packet)).0
            ++ (signature objects mac number (frame objects size random_bytes packet)).0,
        (signature objects mac number (frame objects size random_bytes packet)).1,
      )

      deflated : deflate_packet objects keys.deflate fresh packet ≡ returns (packet, none)
      deflated = rw linked.stored (deflate_packet-stored fresh packet)

      blocks_here : (0 < b) × (b ≤ 252)
      blocks_here = elim linked.block [
        | inl e ↦ (omega arith, linked.block_small)
        | inr e ↦ (omega arith, linked.block_small)
      ]

      blocks : (0 < block_size_of objects keys.crypto) × (block_size_of objects keys.crypto ≤ 252)
      blocks = rw linked.same_block blocks_here

      result : (encrypted, after.mac) ≡ sent (block_size_of objects keys.crypto) keys.mac seqno
      result =
          ap {A = Run (List ℕ × Keys M C D)}
            (λ r. elim r [ aborted ↦ (encrypted, after.mac) | returns (e, k) ↦ (e, k.mac) ])
            (sym enc
              ∙ (encrypt_packet_lem objects ext fresh random_bytes keys seqno packet packet none
                  (sized, random) some_bytes deflated (omega arith) blocks linked.mac_small).0)

      same : sent (block_size_of objects keys.crypto) keys.mac seqno ≡ sent b self.mac self.seqno
      same =
          ap {A = ℕ} (λ size. sent size keys.mac seqno) linked.same_block
          ∙ ap {A = Option M} (λ mac. sent b mac seqno) (sym linked.same_mac)
          ∙ ap {A = ℕ} (sent b self.mac) (sym linked.same_seqno)

      bytes_read : encrypted ≡ (sent b self.mac self.seqno).0
      bytes_read = ap {A = List ℕ × Option M} (λ x. x.0) (result ∙ same)

      mac_lem : after.mac ≡ (sent b self.mac self.seqno).1
      mac_lem = ap {A = List ℕ × Option M} (λ x. x.1) (result ∙ same)

      encrypted_long : length encrypted ≡ new_size b (length packet) + mac_size_of objects self.mac
      encrypted_long =
          let p = padding_length b (length packet) in
          let bytes = frame objects b random_bytes packet in
          let (pos, small) = blocks_here in
          let (sum, low, high) = padding_length_lem b (length packet) pos small (omega arith) in
          ap {A = List ℕ} length bytes_read
          ∙ omega (
            arith,
            length-append (ciphertext objects keys.crypto bytes).0
                (signature objects self.mac self.seqno bytes).0,
            length-ciphertext objects keys.crypto bytes,
            length-append packet (random_bytes p),
            random p,
            length-signature objects self.mac self.seqno bytes,
            sum,
          )
