-- ===== src/TransportRead.antt =====
-- The packets of src/transport_read.c. The objects of Nettle and zlib are those of Encrypt, with the
-- ciphers set for decryption.
pub mod Mac
pub mod Header
pub mod Packets
pub mod Sizes
pub mod Sealed
pub mod Line
pub mod RoundTrip
pub mod Aborts
pub mod Runs
use lsh.Prelude.{
  ℕ, ◌+◌, ◌-◌, ◌%◌, ◌^◌, Bool, true, false, ◌||◌, not, List, [], ◌∷◌, ◌++◌, if◌then◌else◌, ◌==◌,
  ltb, leb, length, take, drop, get_or, add32, sub32, Option, none, some, Run, aborted, returns,
  then_run, ◌&&◌,
}
use lsh.LshString.{uint32_bytes}
use lsh.Parse.{read_uint32}
use lsh.Encrypt.{Objects, block_size_of, mac_size_of}
use lsh.SshRead.{
  Input, ReadStatus, SshReadState, init_ssh_read_state, make_read_room, read_bytes, read_end,
  read_error, ssh_read_pending, ssh_read_push, ssh_read_some,
}

pub data ProtocolError : Type 0 where
  invalid_mac : ProtocolError
  bogus_padding_length : ProtocolError
  invalid_packet_length : ProtocolError
  packet_too_large : ProtocolError
  unexpected_eof : ProtocolError

-- SSH_READ_COMPLETE with the number and the payload of the packet, or another status.
pub data ReadResult : Type 0 where
  read_io_error : ReadResult
  read_protocol_error : ProtocolError → ReadResult
  read_eof : ReadResult
  read_status : ReadStatus → ReadResult
  read_complete : (seqno : ℕ) → List ℕ → ReadResult

pub record TransportReadState (M C D : Type 0) : Type 0 where
  pub super : SshReadState
  pub mac : Option M
  pub crypto : Option C
  pub inflate : Option D
  pub seqno : ℕ
  pub padding : ℕ
  pub total_length : ℕ

unfoldable pub make_transport_read_state : {M C D : Type 0} → TransportReadState M C D
unfolding init_ssh_read_state
make_transport_read_state = record {
  super = init_ssh_read_state 35000;
  mac = none;
  crypto = none;
  inflate = none;
  seqno = 0;
  padding = 0;
  total_length = 0;
}

-- memcmp
abbrev pub same_bytes : List ℕ → List ℕ → Bool
same_bytes [] [] = true
same_bytes (x ∷ xs) (y ∷ ys) = x == y && same_bytes xs ys
same_bytes _ _ = false

module _ {M C D : Type 0} (objects : Objects M C D) where
  -- CRYPT in place, of `l` bytes from index `i` on.
  unfoldable pub crypt_at : Option C → ℕ → ℕ → List ℕ → List ℕ × Option C
  crypt_at none i l bytes = (bytes, none)
  crypt_at (some c) i l bytes =
      let (out, c') = objects.crypt c (take l (drop i bytes)) in
      (take i bytes ++ (out ++ drop l (drop i bytes)), some c')

  abbrev pub update_mac : Option M → List ℕ → Option M
  update_mac none bytes = none
  update_mac (some m) bytes = some (objects.mac_update m bytes)

  -- Whether the bytes are the MAC, and the object behind that.
  unfoldable pub check_mac : Option M → List ℕ → Bool × Option M
  check_mac none bytes = (true, none)
  check_mac (some m) bytes =
      let (digest, m') = objects.mac_digest m in (same_bytes digest bytes, some m')

  unfoldable pub inflate_payload : Option D → List ℕ → List ℕ × Option D
  inflate_payload none bytes = (bytes, none)
  inflate_payload (some d) bytes = let (out, d') = objects.codec d bytes in (out, some d')

  -- Behind the decryption: the MAC is checked and the payload taken. `output_size` is the room for it.
  unfoldable pub finish_packet :
      TransportReadState M C D
      → ℕ
      → List ℕ
      → Option C
      → Option M
      → Run (ReadResult × TransportReadState M C D)
  unfolding check_mac inflate_payload
  finish_packet self output_size bytes crypto updated =
      let mac_size = mac_size_of objects self.mac in
      let (good, mac) =
        check_mac updated (take mac_size (drop (sub32 self.total_length mac_size) bytes)) in
      let l = sub32 (sub32 self.total_length mac_size) self.padding in
      let (payload, inflate) = inflate_payload self.inflate (take l bytes) in
      if not good
      then returns (
        read_protocol_error invalid_mac,
        record self { super = record self.super { input = bytes }; mac = mac; crypto = crypto },
      )
      else if ltb output_size (length payload)
      then aborted
      else returns (
        read_complete self.seqno payload,
        record {
          super = record self.super {
            start = add32 self.super.start self.total_length;
            input = drop self.total_length bytes;
          };
          mac = mac;
          crypto = crypto;
          inflate = inflate;
          seqno = add32 self.seqno 1;
          padding = self.padding;
          total_length = 0;
        },
      )

  -- The rest of the packet is all there, behind its header.
  unfoldable pub decode_packet :
      TransportReadState M C D → ℕ → Run (ReadResult × TransportReadState M C D)
  decode_packet self output_size =
      let crypt_done = sub32 (block_size_of objects self.crypto) 5 in
      let crypt_left = sub32 self.total_length (add32 crypt_done (mac_size_of objects self.mac)) in
      if crypt_left == 0
      then finish_packet self output_size self.super.input self.crypto self.mac
      else (let (bytes, crypto) = crypt_at self.crypto crypt_done crypt_left self.super.input in
          finish_packet self output_size bytes crypto
            (update_mac self.mac (take crypt_left (drop crypt_done bytes))))

  -- The checks of a header, and the state behind it; `bytes` is the input with its first block decrypted.
  unfoldable pub check_header :
      TransportReadState M C D
      → ℕ
      → List ℕ
      → ℕ
      → ℕ
      → TransportReadState M C D × Option ProtocolError
  check_header self block_size bytes packet_length padding =
      let total = add32 (sub32 packet_length 1) (mac_size_of objects self.mac) in
      let kept = record self { padding = padding; super = record self.super { input = bytes } } in
      if ltb padding 4 || leb packet_length padding
      then (kept, some bogus_padding_length)
      else if ltb packet_length 12
          || (ltb packet_length (sub32 block_size 4)
              || not (add32 packet_length 4 % block_size == 0))
      then (kept, some invalid_packet_length)
      else if ltb 35000 packet_length
      then (kept, some packet_too_large)
      else if ltb self.super.size total
      then (record kept { total_length = total }, some packet_too_large)
      else (
        record kept {
          total_length = total;
          super = record self.super { start = add32 self.super.start 5; input = drop 5 bytes };
        },
        none,
      )

  unfoldable pub process_header :
      TransportReadState M C D → TransportReadState M C D × Option ProtocolError
  process_header self =
      let block_size = block_size_of objects self.crypto in
      let (bytes, crypto) = crypt_at self.crypto 0 block_size self.super.input in
      let mac =
        update_mac (update_mac self.mac (uint32_bytes self.seqno)) (take block_size bytes) in
      check_header (record self { crypto = crypto; mac = mac }) block_size bytes
        (read_uint32 (get_or bytes 0 0) (get_or bytes 1 0) (get_or bytes 2 0) (get_or bytes 3 0))
        (get_or bytes 4 0)

  abbrev pub Read : Type 0
  Read = Run (ReadResult × TransportReadState M C D)

  -- Behind a read that failed.
  abbrev pub read_failed : Bool → ReadResult
  read_failed would_block = if would_block then read_status ssh_read_push else read_io_error

  unfoldable pub read_rest : TransportReadState M C D → Bool → Input → ℕ → Read
  read_rest self may_read input output_size =
      if not (ltb (length self.super.input) self.total_length)
      then decode_packet self output_size
      else if not may_read
      then returns (read_status self.super.read_status, self)
      else then_run (ssh_read_some self.super (add32 self.total_length 1000) input) (λ super.
        let state = record self { super = super } in
        elim input [
          | read_error would_block ↦ returns (read_failed would_block, state)
          | read_end ↦ returns (read_protocol_error unexpected_eof, state)
          | read_bytes bytes readable ↦
              if ltb (length super.input) self.total_length
              then returns (read_status super.read_status, state)
              else decode_packet state output_size
        ])

  unfoldable pub read_header : TransportReadState M C D → Bool → Input → ℕ → Read
  read_header self may_read input output_size =
      if self.total_length == 0
      then (let (state, error) = process_header self in
          elim error [
            | some e ↦ returns (read_protocol_error e, state)
            | none ↦ read_rest state may_read input output_size
          ])
      else read_rest self may_read input output_size

  -- A call reads at most once; `may_read` is a descriptor that is not -1.
  unfoldable pub transport_read_packet : TransportReadState M C D → Bool → Input → ℕ → Read
  transport_read_packet self may_read input output_size =
      let block_size = block_size_of objects self.crypto in
      if not (ltb (length self.super.input) block_size)
      then read_header self may_read input output_size
      else if not may_read
      then returns (read_status self.super.read_status, self)
      else then_run (ssh_read_some self.super 1000 input) (λ super.
        let state = record self { super = super } in
        elim input [
          | read_error would_block ↦ returns (read_failed would_block, state)
          | read_end ↦ returns (
            if length super.input == 0 then read_eof else read_protocol_error unexpected_eof,
            state,
          )
          | read_bytes bytes readable ↦
              if ltb (length super.input) block_size
              then returns (read_status super.read_status, state)
              else read_header state false (read_bytes bytes readable) output_size
        ])

unfoldable pub transport_read_new_keys :
    {M C D : Type 0}
    → TransportReadState M C D
    → Option M
    → Option C
    → Option D
    → TransportReadState M C D
transport_read_new_keys self mac crypto inflate = record self {
  mac = mac;
  crypto = crypto;
  inflate = inflate;
}
