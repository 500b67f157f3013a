-- ===== src/TransportRead/Runs.antt =====
-- src/transport_read.c with a cipher that adds one to every byte, and the other that takes one away.
use lsh.Prelude.{
  ℕ, zero, suc, ◌+◌, ◌-◌, ◌≤◌, ◌≡◌, refl, ap, List, [], ◌∷◌, ◌++◌, length, length-append, take,
  drop, Bool, true, false, if◌then◌else◌, none, Option, some, aborted, returns, arith, inr,
}
use mathlib.Core.List.{map}
use lsh.TransportRead.Line.{
  LineResult, line_complete, transport_read_line, find_line, line_at, find_byte, chop_return,
  read_line, line_or_read,
}
use lsh.TransportRead.Line.Reads.{arrived, LineRead}
use lsh.TransportRead.Line.Whole.{Which, transport_read_line-ReadsLine}
use lsh.Format.Runs.{zeros, small_externals, length-zeros}
use lsh.TransportWrite.{Keys}
use lsh.Encrypt.{Objects, encrypt_packet, padding_length, new_size, deflate_packet}
use lsh.Encrypt.Packet.{frame, encrypt_packet_lem}
use lsh.SshRead.{Input, ssh_read_some, make_read_room, ssh_read_push, read_end, read_bytes}
use lsh.TransportRead.{TransportReadState, transport_read_packet}
use lsh.TransportRead.Mac.{IsStream}
use lsh.TransportRead.Packets.{Reads}
use lsh.TransportRead.Sealed.{Linked}
use lsh.TransportRead.Aborts.{transport_read_packet-aborts}
use lsh.TransportRead.RoundTrip.{transport_read_packet-encrypt_packet}

abbrev shifted : Bool → List ℕ → List ℕ
shifted up bytes = map (λ x. if up then x + 1 else x - 1) bytes

length-shifted : (up : Bool) (l : List ℕ) → length (shifted up l) ≡ length l
length-shifted up [] = refl
length-shifted up (x ∷ l) = ap suc (length-shifted up l)

abbrev shift_objects : Objects ℕ Bool ℕ
shift_objects = record {
  block_size = λ c. 16;
  crypt = λ c input. (shifted c input, c);
  mac_size = λ m. 1;
  mac_update = λ m input. m + length input;
  mac_digest = λ m. (m ∷ [], 0);
  codec = λ d input. (0 ∷ [], d);
  length-crypt = length-shifted;
  block_size-crypt = λ c input. refl;
  length-mac_digest = λ m. refl;
  mac_size-update = λ m input. refl;
}

abbrev keys : Keys ℕ Bool ℕ
keys = record { mac = some 0; crypto = some true; deflate = none }

abbrev sent_bytes : List ℕ
sent_bytes = shifted true (frame shift_objects 16 zeros (2 ∷ 3 ∷ []))

abbrev sent : List ℕ
sent = sent_bytes ++ ((0 + 4 + length (frame shift_objects 16 zeros (2 ∷ 3 ∷ []))) ∷ [])

abbrev reader : TransportReadState ℕ Bool ℕ
reader = record {
  super = record { size = 35000; start = 3; input = sent ++ (9 ∷ []); read_status = ssh_read_push };
  mac = some 0;
  crypto = some false;
  inflate = none;
  seqno = 7;
  padding = 0;
  total_length = 0;
}

take-shifted : (k : ℕ) (l : List ℕ) → shifted false (take k (shifted true l)) ≡ take k l
take-shifted zero l = refl
take-shifted (suc k) [] = refl
take-shifted (suc k) (x ∷ l) = let e : x + 1 - 1 ≡ x = omega arith in rw (e, take-shifted k l) refl

drop-shifted : (k : ℕ) (l : List ℕ) → shifted false (drop k (shifted true l)) ≡ drop k l
drop-shifted zero [] = refl
drop-shifted zero (x ∷ l) = let e : x + 1 - 1 ≡ x = omega arith in rw (e, drop-shifted zero l) refl
drop-shifted (suc k) [] = refl
drop-shifted (suc k) (x ∷ l) = drop-shifted k l

shift-Linked : Linked shift_objects keys 7 reader
shift-Linked = record {
  stored = refl;
  plain = refl;
  same_mac = refl;
  same_seqno = refl;
  at_header = refl;
  same_block = refl;
  block = inr (omega arith);
  block_small = omega arith;
  mac_small = omega arith;
  undoes = λ bytes h. (take-shifted 16 bytes, drop-shifted 16 bytes);
}

shift-IsStream : IsStream shift_objects
shift-IsStream = (λ m. omega arith, λ m a b. omega (arith, length-append a b))

sent-short : length sent ≤ 35000
unfolding padding_length new_size
sent-short = omega arith

deflated : deflate_packet shift_objects none zeros (2 ∷ 3 ∷ []) ≡ returns (2 ∷ 3 ∷ [], none)
unfolding deflate_packet
deflated = refl

sent_lem :
    encrypt_packet shift_objects small_externals zeros zeros keys 7 (2 ∷ 3 ∷ [])
    ≡ returns (sent, keys)
sent_lem =
    (encrypt_packet_lem shift_objects small_externals zeros zeros keys 7 (2 ∷ 3 ∷ []) (2 ∷ 3 ∷ [])
      none (length-zeros, length-zeros) (omega arith) deflated (omega arith)
      (omega arith, omega arith) (omega arith)).0

transport_read_packet-encrypt_packet_example :
    Reads shift_objects reader
      (2 ∷ 3 ∷ [])
      (9 ∷ [])
      (some 0)
      (transport_read_packet shift_objects reader false read_end 34816)
transport_read_packet-encrypt_packet_example =
    transport_read_packet-encrypt_packet shift_objects small_externals zeros zeros keys keys 7
      (2 ∷ 3 ∷ []) sent (9 ∷ []) reader false read_end 34816 (length-zeros, length-zeros)
      shift-IsStream shift-Linked (omega arith, omega arith, omega arith) sent_lem sent-short refl

-- The first block of a packet of 34996 bytes with 4 bytes of padding.
abbrev large_header : List ℕ
large_header = 0 ∷ 0 ∷ 136 ∷ 180 ∷ 4 ∷ 1 ∷ 2 ∷ 3 ∷ []

abbrev open_reader : TransportReadState ℕ Bool ℕ
open_reader = record {
  super = record { size = 35000; start = 0; input = large_header; read_status = ssh_read_push };
  mac = none;
  crypto = none;
  inflate = none;
  seqno = 0;
  padding = 0;
  total_length = 0;
}

transport_read_packet-aborts_example :
    transport_read_packet shift_objects open_reader true (read_bytes (5 ∷ []) true) 35000 ≡ aborted
transport_read_packet-aborts_example =
    transport_read_packet-aborts shift_objects open_reader 34996 4 (1 ∷ 2 ∷ 3 ∷ []) large_header []
      (read_bytes (5 ∷ []) true) 35000 refl refl refl refl (omega arith, omega arith, omega arith)
      refl (omega arith, omega arith) (omega arith) refl refl (omega arith, omega arith)
      (omega arith)

-- A line that is not complete before the read.
abbrev line_reader : TransportReadState ℕ Bool ℕ
line_reader = record {
  super = record { size = 35000; start = 34990; input = 83 ∷ 83 ∷ []; read_status = ssh_read_push };
  mac = none;
  crypto = none;
  inflate = none;
  seqno = 0;
  padding = 0;
  total_length = 0;
}

abbrev line_input : Input
line_input = read_bytes (72 ∷ 13 ∷ 10 ∷ 7 ∷ []) true

transport_read_line-ReadsLine_example :
    (r : LineResult) × (after : TransportReadState ℕ Bool ℕ) × (read : Option Input)
    × (transport_read_line line_reader true line_input ≡ returns (r, after))
    × Which (83 ∷ 83 ∷ []) true line_input read
    × LineRead read (83 ∷ 83 ∷ arrived read) r after.super.input
    × (after.super.size ≡ 35000)
transport_read_line-ReadsLine_example =
    transport_read_line-ReadsLine line_reader true line_input refl

line_example :
    (transport_read_line line_reader true line_input)
    ≡ returns (
      line_complete (83 ∷ 83 ∷ 72 ∷ []),
      record line_reader {
        super = record { size = 35000; start = 5; input = 7 ∷ []; read_status = ssh_read_push };
      },
    )
unfolding transport_read_line line_or_read read_line find_line line_at find_byte chop_return
    ssh_read_some make_read_room
line_example = refl
