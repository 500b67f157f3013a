-- ===== src/TransportRead/Packets.antt =====
-- src/transport_read.c: the rest of a packet behind its header.
use mathlib.Core.Path.{subst}
use lsh.Prelude.{
  ℕ, ◌+◌, ◌^◌, ◌≤◌, ◌<◌, ◌≡◌, refl, sym, ap, ◌∙◌, false, List, [], ◌++◌, append_assoc,
  length-append, ◌==◌, ltb, length, take, drop, add32, sub32, Option, none, Run, returns, arith,
  Bool-cases, inl, inr,
}
use lsh.LshString.{uint32_bytes}
use lsh.Encrypt.{Objects, block_size_of, mac_size_of}
use lsh.Encrypt.Packet.{signature, ciphertext}
use lsh.TransportRead.{
  TransportReadState, ReadResult, read_complete, crypt_at, update_mac, inflate_payload,
  finish_packet, decode_packet,
}
use lsh.TransportRead.Mac.{
  no-bytes, take-front-of, drop-front-of, crypt_at_lem, IsStream, update_mac-append, update_mac-nil,
  check_mac_lem, length-signature, mac_size-update_mac,
}

module _ {M C D : Type 0} (objects : Objects M C D) where
  -- What is read of a packet that was decrypted: its payload, with the MAC of the whole frame.
  abbrev pub Reads :
      TransportReadState M C D
      → List ℕ
      → List ℕ
      → Option M
      → Run (ReadResult × TransportReadState M C D)
      → Type 0
  Reads self payload rest mac r =
      (after : TransportReadState M C D) × (r ≡ returns (read_complete self.seqno payload, after))
      × (after.super.input ≡ rest)
      × (after.mac ≡ mac)
      × (after.seqno ≡ add32 self.seqno 1)
      × (after.total_length ≡ 0)

  finish_packet_lem :
      (self : TransportReadState M C D) (output_size : ℕ) (mac updated : Option M)
      (crypto : Option C) (frame inner payload padding rest : List ℕ)
      → updated ≡ update_mac objects (update_mac objects mac (uint32_bytes self.seqno)) frame
      → mac_size_of objects self.mac ≡ mac_size_of objects mac
      → self.total_length ≡ length inner + mac_size_of objects mac
      → self.total_length < 2 ^ 31
      → inner ≡ payload ++ padding
      → length padding ≡ self.padding
      → self.inflate ≡ none
      → length payload ≤ output_size
      → Reads self payload rest (signature objects mac self.seqno frame).1 (
          finish_packet objects self output_size
            (inner ++ ((signature objects mac self.seqno frame).0 ++ rest))
            crypto
            updated)
  unfolding finish_packet inflate_payload
  finish_packet_lem self output_size mac updated crypto frame inner payload padding rest u m total
        small split pad inf room =
      let s = (signature objects mac self.seqno frame).0 in
      let tag : length s ≡ mac_size_of objects mac =
        length-signature objects mac self.seqno frame in
      let body : sub32 self.total_length (mac_size_of objects mac) ≡ length inner = omega arith in
      let sizes : length inner ≡ length payload + length padding =
        ap length split ∙ length-append payload padding in
      let taken : take (sub32 (sub32 self.total_length (mac_size_of objects mac)) self.padding)
            (inner ++ (s ++ rest))
          ≡ payload =
        ap {A = List ℕ}
          (λ xs.
            take (sub32 (sub32 self.total_length (mac_size_of objects mac)) self.padding)
              (xs ++ (s ++ rest)))
          split
        ∙ ap {A = List ℕ}
            (take (sub32 (sub32 self.total_length (mac_size_of objects mac)) self.padding))
            (append_assoc payload padding (s ++ rest))
        ∙ take-front-of (sub32 (sub32 self.total_length (mac_size_of objects mac)) self.padding)
            payload (padding ++ (s ++ rest)) (omega arith) in
      let fits : ltb output_size (length payload) ≡ false = ground arith in
      let behind : drop self.total_length (inner ++ (s ++ rest)) ≡ rest =
        ap {A = List ℕ} (drop self.total_length) (sym (append_assoc inner s rest))
        ∙ drop-front-of self.total_length (inner ++ s) rest
            (omega (arith, length-append inner s)) in
      let after : TransportReadState M C D = record {
        super = record self.super {
          start = add32 self.super.start self.total_length;
          input = drop self.total_length (inner ++ (s ++ rest));
        };
        mac = (signature objects mac self.seqno frame).1;
        crypto = crypto;
        inflate = none;
        seqno = add32 self.seqno 1;
        padding = self.padding;
        total_length = 0;
      } in
      (
        after,
        rw
            (
              m,
              inf,
              taken,
              fits,
              body,
              drop-front-of (length inner) inner (s ++ rest) refl,
              take-front-of (mac_size_of objects mac) s rest (omega arith),
              u,
              check_mac_lem objects mac self.seqno frame,
            )
            refl,
        behind,
        refl,
        refl,
        refl,
      )

  -- The rest of a packet: `front` is decrypted already, `body` is still encrypted, then the MAC follows.
  pub decode_packet_lem :
      (self : TransportReadState M C D) (output_size : ℕ) (mac : Option M)
      (head front body plain payload padding rest : List ℕ)
      → IsStream objects
      → self.super.input
        ≡ front
          ++ (body ++ ((signature objects mac self.seqno (head ++ (front ++ plain))).0 ++ rest))
      → (ciphertext objects self.crypto body).0 ≡ plain
      → length body ≡ length plain
      → self.mac
        ≡ update_mac objects (update_mac objects mac (uint32_bytes self.seqno)) (head ++ front)
      → block_size_of objects self.crypto ≡ length front + 5
      → self.total_length ≡ length front + length body + mac_size_of objects mac
      → self.total_length < 2 ^ 31
      → front ++ plain ≡ payload ++ padding
      → length padding ≡ self.padding
      → self.inflate ≡ none
      → length payload ≤ output_size
      → Reads self payload rest
          (signature objects mac self.seqno (head ++ (front ++ plain))).1
          (decode_packet objects self output_size)
  unfolding decode_packet
  decode_packet_lem self output_size mac head front body plain payload padding rest stream at dec
        same macs block total small split pad inf room =
      elim (Bool-cases (length body == 0)) [
        | inl e ↦
            let nothing : body ≡ [] = no-bytes body (ground arith) in
            let none_left : plain ≡ [] = no-bytes plain (ground arith) in
            rw (ms, done, left_lem, e)
              (finish self.super.input self.mac self.crypto
                (at
                  ∙ ap {A = List ℕ} (λ b. front ++ (b ++ (s ++ rest))) (nothing ∙ sym none_left)
                  ∙ shift plain)
                (macs
                  ∙ sym (update_mac-nil objects _ stream)
                  ∙ update_mac-append objects _ (head ++ front) [] stream
                  ∙ ap {A = List ℕ}
                      (update_mac objects (update_mac objects mac (uint32_bytes self.seqno)))
                      (append_assoc head front []
                        ∙ ap {A = List ℕ} (λ p. head ++ (front ++ p)) (sym none_left))))
        | inr e ↦
            rw
              (
                ms,
                done,
                left_lem,
                e,
                crypted,
                drop-front-of (length front) front (plain ++ (s ++ rest)) refl,
                take-front-of (length body) plain (s ++ rest) same,
              )
              (finish (front ++ (plain ++ (s ++ rest))) (update_mac objects self.mac plain)
                (ciphertext objects self.crypto body).1 (sym (append_assoc front plain (s ++ rest)))
                (ap {A = Option M} (λ m. update_mac objects m plain) macs
                  ∙ update_mac-append objects (update_mac objects mac (uint32_bytes self.seqno))
                      (head ++ front) plain stream
                  ∙ ap {A = List ℕ}
                      (update_mac objects (update_mac objects mac (uint32_bytes self.seqno)))
                      (append_assoc head front plain)))
      ]
    where
      s : List ℕ
      s = (signature objects mac self.seqno (head ++ (front ++ plain))).0

      ms : mac_size_of objects self.mac ≡ mac_size_of objects mac
      ms = rw macs (
          mac_size-update_mac objects (update_mac objects mac (uint32_bytes self.seqno))
            (head ++ front)
          ∙ mac_size-update_mac objects mac (uint32_bytes self.seqno))

      done : sub32 (block_size_of objects self.crypto) 5 ≡ length front
      done = omega arith

      left_lem :
          sub32 self.total_length (add32 (length front) (mac_size_of objects mac)) ≡ length body
      left_lem = omega arith

      shift : (p : List ℕ) → front ++ (p ++ (s ++ rest)) ≡ (front ++ p) ++ (s ++ rest)
      shift p = sym (append_assoc front p (s ++ rest))

      crypted :
          crypt_at objects self.crypto (length front) (length body) self.super.input
          ≡ (front ++ (plain ++ (s ++ rest)), (ciphertext objects self.crypto body).1)
      crypted =
          ap {A = List ℕ} (crypt_at objects self.crypto (length front) (length body)) at
          ∙ crypt_at_lem objects self.crypto (length front) (length body) front body (s ++ rest)
              refl refl
          ∙ ap {A = List ℕ}
              (λ xs. (front ++ (xs ++ (s ++ rest)), (ciphertext objects self.crypto body).1)) dec

      finish :
          (bytes : List ℕ) (updated : Option M) (crypto : Option C)
          → bytes ≡ (front ++ plain) ++ (s ++ rest)
          → updated
            ≡ update_mac objects
                (update_mac objects mac (uint32_bytes self.seqno))
                (head ++ (front ++ plain))
          → Reads self payload rest
              (signature objects mac self.seqno (head ++ (front ++ plain))).1
              (finish_packet objects self output_size bytes crypto updated)
      finish bytes updated crypto e u =
          subst
            (λ xs.
              Reads self payload rest
                (signature objects mac self.seqno (head ++ (front ++ plain))).1
                (finish_packet objects self output_size xs crypto updated))
            (sym e)
            (finish_packet_lem self output_size mac updated crypto (head ++ (front ++ plain))
              (front ++ plain) payload padding rest u ms (omega (arith, length-append front plain))
              small split pad inf room)
