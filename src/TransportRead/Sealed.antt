-- ===== src/TransportRead/Sealed.antt =====
-- src/transport_read.c: an encrypted frame with its MAC is read.
use lsh.Prelude.{
  ℕ, ◌+◌, ◌-◌, ◌/◌, ◌%◌, ◌^◌, ◌≤◌, ◌<◌, ◌≡◌, refl, sym, ap, ◌∙◌, Bool, true, false, List, [], ◌∷◌,
  ◌++◌, append_assoc, length-append, ◌==◌, ltb, length, take, drop, add32, take-append-drop,
  length-drop, Option, none, Run, arith, ◌⊎◌,
}
use lsh.LshString.{uint32_bytes}
use lsh.TransportWrite.{Keys}
use lsh.Encrypt.{Objects, block_size_of, mac_size_of, new_size, padding_length}
use lsh.Encrypt.Packet.{frame, signature, ciphertext}
use lsh.Encrypt.Stream.{length-ciphertext}
use mathlib.Core.Path.{subst}
use lsh.SshRead.{Input}
use lsh.TransportRead.{
  ProtocolError, ReadResult, TransportReadState, update_mac, read_rest, read_header, process_header,
  decode_packet, transport_read_packet,
}
use lsh.TransportRead.Mac.{IsStream, length-signature, block_size-ciphertext}
use lsh.TransportRead.Header.{process_header_lem}
use lsh.TransportRead.Packets.{Reads, decode_packet_lem}
use lsh.TransportRead.Sizes.{take-five, frame-sizes}

module _ {M C D : Type 0} (objects : Objects M C D) where
  -- The second cipher undoes the first, also when it decrypts the first block before the others.
  abbrev pub Undoes : Option C → Option C → Type 0
  Undoes crypto other =
      (bytes : List ℕ)
      → length bytes % block_size_of objects other ≡ 0
      → ((ciphertext objects other
            (take (block_size_of objects other) (ciphertext objects crypto bytes).0)).0
          ≡ take (block_size_of objects other) bytes)
        × ((ciphertext objects
              (ciphertext objects other
                (take (block_size_of objects other) (ciphertext objects crypto bytes).0)).1
              (drop (block_size_of objects other) (ciphertext objects crypto bytes).0)).0
            ≡ drop (block_size_of objects other) bytes)

  -- A reader that waits for the packet that a writer encrypts next, without compression.
  pub record Linked (keys : Keys M C D) (seqno : ℕ) (self : TransportReadState M C D) : Type 0 where
    pub stored : keys.deflate ≡ none
    pub plain : self.inflate ≡ none
    pub same_mac : self.mac ≡ keys.mac
    pub same_seqno : self.seqno ≡ seqno
    pub at_header : self.total_length ≡ 0
    pub same_block : block_size_of objects keys.crypto ≡ block_size_of objects self.crypto
    pub block : (block_size_of objects self.crypto ≡ 8) ⊎ (16 ≤ block_size_of objects self.crypto)
    pub block_small : block_size_of objects self.crypto ≤ 252
    pub mac_small : mac_size_of objects keys.mac < 2 ^ 16
    pub undoes : Undoes keys.crypto self.crypto

  -- The pieces of an encrypted packet in the input of a reader, and its first block.
  pieces :
      (b : ℕ) (cipher s rest : List ℕ)
      → (cipher ++ s) ++ rest ≡ take b cipher ++ (drop b cipher ++ (s ++ rest))
  pieces b cipher s rest =
      append_assoc cipher s rest
      ∙ ap {A = List ℕ} (λ xs. xs ++ (s ++ rest)) (sym (take-append-drop b cipher))
      ∙ append_assoc (take b cipher) (drop b cipher) (s ++ rest)

  read_rest-whole :
      (self : TransportReadState M C D) (may_read : Bool) (input : Input) (output_size : ℕ)
      → ltb (length self.super.input) self.total_length ≡ false
      → read_rest objects self may_read input output_size ≡ decode_packet objects self output_size
  unfolding read_rest
  read_rest-whole self may_read input output_size more = rw more refl

  -- A packet that is all there is read in one call.
  read_at_header :
      (self opened : TransportReadState M C D) (may_read : Bool) (input : Input) (output_size : ℕ)
      → ltb (length self.super.input) (block_size_of objects self.crypto) ≡ false
      → (self.total_length == 0) ≡ true
      → process_header objects self ≡ (opened, none)
      → ltb (length opened.super.input) opened.total_length ≡ false
      → transport_read_packet objects self may_read input output_size
        ≡ decode_packet objects opened output_size
  unfolding transport_read_packet read_header
  read_at_header self opened may_read input output_size enough zero_length header more =
      rw (enough, zero_length, header)
        (ap {A = TransportReadState M C D × Option ProtocolError}
            (λ s. read_rest objects s.0 may_read input output_size) header
          ∙ read_rest-whole opened may_read input output_size more)

  -- The same with the frame and the MAC written out.
  pub Reads-sealed :
      (random_bytes : ℕ → List ℕ) (keys : Keys M C D) (packet rest : List ℕ)
      (self : TransportReadState M C D) (may_read : Bool) (input : Input) (output_size : ℕ)
      → ((n : ℕ) → length (random_bytes n) ≡ n)
      → IsStream objects
      → Linked keys self.seqno self
      → (0 < length packet) × (length packet ≤ 34000) × (length packet ≤ output_size)
      → new_size (block_size_of objects self.crypto) (length packet) + mac_size_of objects self.mac
        ≤ self.super.size
      → self.super.input
        ≡ ((ciphertext objects keys.crypto
              (frame objects (block_size_of objects self.crypto) random_bytes packet)).0
            ++ (signature objects self.mac self.seqno
                (frame objects (block_size_of objects self.crypto) random_bytes packet)).0)
          ++ rest
      → Reads objects self packet rest
          (signature objects self.mac self.seqno
            (frame objects (block_size_of objects self.crypto) random_bytes packet)).1
          (transport_read_packet objects self may_read input output_size)
  Reads-sealed random_bytes keys packet rest self may_read input output_size random stream linked
        (some_bytes, few, room) fits at =
      let (size, five, least, whole, twelve, most, first_long, front_long, rest_long, one_block) =
        sizes in
      let (first_block, others) = linked.undoes bytes (ap {A = ℕ} (λ l. l % b) bytes_lem ∙ whole) in
      let (front_bytes, plain_bytes) =
        take-five b (n / 16777216 % 256) (n / 65536 % 256) (n / 256 % 256) (n % 256) p
          (packet ++ random_bytes p) five in
      rw
        (read_at_header self opened may_read input output_size enough at_header
          (process_header_lem objects self n p front (take b cipher)
            (drop b cipher ++ (tag ++ rest)) input_lem (first_block ∙ front_bytes) (sym first_long)
            (omega arith) (omega arith, twelve, most, omega arith) even (least, omega arith) ms
            (omega arith))
          more)
        (sealed (
          decode_packet_lem objects opened output_size self.mac (uint32_bytes n ++ (p ∷ [])) front
            (drop b cipher) plain packet (random_bytes p) rest stream here (others ∙ plain_bytes)
            rest_long refl
            (block_size-ciphertext objects self.crypto (take b cipher) ∙ sym front_long) total
            (omega (arith, ms)) (take-append-drop (b - 5) (packet ++ random_bytes p)) (random p)
            linked.plain room))
    where
      b : ℕ
      b = block_size_of objects self.crypto

      p : ℕ
      p = padding_length b (length packet)

      n : ℕ
      n = length packet + p + 1

      bytes : List ℕ
      bytes = frame objects b random_bytes packet

      cipher : List ℕ
      cipher = (ciphertext objects keys.crypto bytes).0

      tag : List ℕ
      tag = (signature objects self.mac self.seqno bytes).0

      front : List ℕ
      front = take (b - 5) (packet ++ random_bytes p)

      plain : List ℕ
      plain = drop (b - 5) (packet ++ random_bytes p)

      joined : uint32_bytes n ++ (p ∷ (front ++ plain)) ≡ bytes
      joined =
          ap {A = List ℕ} (λ xs. uint32_bytes n ++ (p ∷ xs))
            (take-append-drop (b - 5) (packet ++ random_bytes p))

      opened : TransportReadState M C D
      opened = record self {
        super = record self.super {
          start = add32 self.super.start 5;
          input = front ++ (drop b cipher ++ (tag ++ rest));
        };
        mac =
            update_mac objects (update_mac objects self.mac (uint32_bytes self.seqno))
              (uint32_bytes n ++ (p ∷ front));
        crypto = (ciphertext objects self.crypto (take b cipher)).1;
        padding = p;
        total_length = n - 1 + mac_size_of objects self.mac;
      }

      input_lem : self.super.input ≡ take b cipher ++ (drop b cipher ++ (tag ++ rest))
      input_lem = at ∙ pieces b cipher tag rest

      bytes_lem : length bytes ≡ length packet + p + 5
      bytes_lem = omega (arith, length-append packet (random_bytes p), random p)

      ms : mac_size_of objects self.mac < 2 ^ 16
      ms = rw (linked.same_mac) linked.mac_small

      sizes :
          (length packet + p + 5 ≡ new_size b (length packet))
          × (5 ≤ b)
          × (4 ≤ p)
          × ((length packet + p + 5) % b ≡ 0)
          × (12 ≤ length packet + p + 1)
          × (length packet + p + 1 ≤ 35000)
          × (length (take b cipher) ≡ b)
          × (length front + 5 ≡ b)
          × (length (drop b cipher) ≡ length plain)
          × (b ≤ length packet + p + 5)
      sizes =
          frame-sizes b p packet (random_bytes p) cipher linked.block linked.block_small
            (some_bytes, few) refl (random p)
            (length-ciphertext objects keys.crypto bytes ∙ bytes_lem)

      at_header : (self.total_length == 0) ≡ true
      at_header = rw linked.at_header refl

      front_long : length front + 5 ≡ b
      front_long = sizes.7

      whole_long : length cipher ≡ length packet + p + 5
      whole_long = length-ciphertext objects keys.crypto bytes ∙ bytes_lem

      behind_long : length (drop b cipher) + b ≡ length packet + p + 5
      behind_long =
          let one_block : b ≤ length packet + p + 5 = sizes.9 in
          omega (arith, length-drop b cipher, whole_long)

      input_long : length self.super.input ≡ b + (length (drop b cipher) + length (tag ++ rest))
      input_long =
          let first_long = sizes.6 in
          ap {A = List ℕ} length input_lem
          ∙ omega (
            arith,
            length-append (take b cipher) (drop b cipher ++ (tag ++ rest)),
            length-append (drop b cipher) (tag ++ rest),
            first_long,
          )

      total :
          n - 1 + mac_size_of objects self.mac
          ≡ length front + length (drop b cipher) + mac_size_of objects self.mac
      total = omega (arith, front_long, behind_long)

      sealed :
          {r : Run (ReadResult × TransportReadState M C D)}
          → Reads objects opened packet rest
              (signature objects self.mac self.seqno
                ((uint32_bytes n ++ (p ∷ [])) ++ (front ++ plain))).1
              r
          → Reads objects self packet rest (signature objects self.mac self.seqno bytes).1 r
      sealed {r} =
          subst
            (λ xs. Reads objects self packet rest (signature objects self.mac self.seqno xs).1 r)
            joined

      enough : ltb (length self.super.input) b ≡ false
      enough = ground (arith, input_long)

      even : (n + 4) % b ≡ 0
      even = ap {A = ℕ} (λ l. l % b) (omega arith) ∙ sizes.3

      more :
          ltb
            (length (front ++ (drop b cipher ++ (tag ++ rest))))
            (n - 1 + mac_size_of objects self.mac)
          ≡ false
      more = ground (
        arith,
        length-append front (drop b cipher ++ (tag ++ rest)),
        length-append (drop b cipher) (tag ++ rest),
        length-append tag rest,
        length-signature objects self.mac self.seqno bytes,
        total,
      )

      here :
          front ++ (drop b cipher ++ (tag ++ rest))
          ≡ front
            ++ (drop b cipher
                ++ ((signature objects self.mac self.seqno
                      ((uint32_bytes n ++ (p ∷ [])) ++ (front ++ plain))).0
                    ++ rest))
      here =
          ap {A = List ℕ}
            (λ xs.
              front ++ (drop b cipher ++ ((signature objects self.mac self.seqno xs).0 ++ rest)))
            (sym joined)
