-- ===== src/TransportRead/Aborts.antt =====
-- src/transport_read.c and src/ssh_read.c: the largest packets that the checks of a header accept.
use lsh.Prelude.{
  ℕ, ◌+◌, ◌-◌, ◌%◌, ◌^◌, ◌≤◌, ◌<◌, ◌≡◌, refl, ap, ◌∙◌, true, false, List, ◌∷◌, ◌++◌, length-append,
  ◌==◌, ltb, length, add32, Option, none, aborted, arith,
}
use lsh.LshString.{uint32_bytes}
use lsh.Encrypt.{Objects, block_size_of, mac_size_of}
use lsh.Encrypt.Packet.{ciphertext}
use lsh.SshRead.{SshReadState, Input, ssh_read_some}
use lsh.TransportRead.{
  ProtocolError, TransportReadState, update_mac, read_rest, read_header, process_header,
  transport_read_packet,
}
use lsh.TransportRead.Header.{process_header_lem}

ssh_read_some-aborts :
    (self : SshReadState) (limit : ℕ) (input : Input)
    → ltb limit self.size ≡ false
    → ssh_read_some self limit input ≡ aborted
unfolding ssh_read_some
ssh_read_some-aborts self limit input h = rw h refl

module _ {M C D : Type 0} (objects : Objects M C D) where
  read_rest-aborts :
      (self : TransportReadState M C D) (input : Input) (output_size : ℕ)
      → ltb (length self.super.input) self.total_length ≡ true
      → ltb (add32 self.total_length 1000) self.super.size ≡ false
      → read_rest objects self true input output_size ≡ aborted
  unfolding read_rest
  read_rest-aborts self input output_size short large =
      rw (short, ssh_read_some-aborts self.super (add32 self.total_length 1000) input large) refl

  header-aborts :
      (self opened : TransportReadState M C D) (input : Input) (output_size : ℕ)
      → ltb (length self.super.input) (block_size_of objects self.crypto) ≡ false
      → (self.total_length == 0) ≡ true
      → process_header objects self ≡ (opened, none)
      → read_rest objects opened true input output_size ≡ aborted
      → transport_read_packet objects self true input output_size ≡ aborted
  unfolding transport_read_packet read_header
  header-aborts self opened input output_size enough zero_length header rest =
      rw (enough, zero_length, header)
        (ap {A = TransportReadState M C D × Option ProtocolError}
            (λ s. read_rest objects s.0 true input output_size) header
          ∙ rest)

  -- A header that passes every check, of a packet that has 34000 bytes or more behind it, makes
  -- transport_read_packet fail an assertion when it may read and the packet is not all there: the limit of
  -- the read is not below the 35000 bytes of the buffer.
  pub transport_read_packet-aborts :
      (self : TransportReadState M C D) (n p : ℕ) (front first behind : List ℕ) (input : Input)
      (output_size : ℕ)
      → self.super.input ≡ first ++ behind
      → (ciphertext objects self.crypto first).0 ≡ uint32_bytes n ++ (p ∷ front)
      → block_size_of objects self.crypto ≡ length first
      → length first ≡ length front + 5
      → (12 ≤ n) × (n ≤ 35000) × (length front + 1 ≤ n)
      → (n + 4) % block_size_of objects self.crypto ≡ 0
      → (4 ≤ p) × (p < n)
      → mac_size_of objects self.mac < 2 ^ 16
      → self.total_length ≡ 0
      → self.super.size ≡ 35000
      → (34000 ≤ n - 1 + mac_size_of objects self.mac)
        × (n - 1 + mac_size_of objects self.mac ≤ 35000)
      → length front + length behind < n - 1 + mac_size_of objects self.mac
      → transport_read_packet objects self true input output_size ≡ aborted
  transport_read_packet-aborts self n p front first behind input output_size at dec block size
        (least, most, long) whole pads macs zero_length buffer (large, fits) short =
      header-aborts self opened input output_size
        (let sum = ap {A = List ℕ} length at ∙ length-append first behind in ground (arith, sum))
        (rw zero_length refl)
        (process_header_lem objects self n p front first behind at dec block size
          (omega arith, least, most, long) whole pads macs (omega arith))
        (read_rest-aborts opened input output_size (ground (arith, length-append front behind))
          (ground arith))
    where
      opened : TransportReadState M C D
      opened = record self {
        super = record self.super { start = add32 self.super.start 5; input = front ++ behind };
        mac =
            update_mac objects (update_mac objects self.mac (uint32_bytes self.seqno))
              (uint32_bytes n ++ (p ∷ front));
        crypto = (ciphertext objects self.crypto first).1;
        padding = p;
        total_length = n - 1 + mac_size_of objects self.mac;
      }
