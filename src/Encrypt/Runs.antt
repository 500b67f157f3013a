-- ===== src/Encrypt/Runs.antt =====
-- src/encrypt.c with a cipher that adds one to every byte, and a MAC of one byte.
use lsh.Prelude.{
  ℕ, suc, ◌+◌, ◌%◌, ◌<◌, ◌≤◌, ◌≡◌, refl, ap, List, [], ◌∷◌, ◌++◌, length, none, some, returns,
  arith,
}
use mathlib.Core.List.{map}
use lsh.Format.Runs.{zeros, small_externals, length-zeros}
use lsh.TransportWrite.{Keys}
use lsh.Encrypt.{Objects, deflate_packet, encrypt_packet, padding_length, new_size}
use lsh.TransportWrite.Packets.{Encrypts}
use lsh.Encrypt.Stream.{IsUsable, sealed, encrypt_packet-Encrypts}
use lsh.Encrypt.Packet.{frame, encrypt_packet_lem}

length-plus : (l : List ℕ) → length (map (λ x. x + 1) l) ≡ length l
length-plus [] = refl
length-plus (x ∷ l) = ap suc (length-plus l)

-- The MAC is the number of bytes that it was updated with.
abbrev plus_one : Objects ℕ ℕ ℕ
plus_one = record {
  block_size = λ c. 16;
  crypt = λ c input. (map (λ x. x + 1) input, c);
  mac_size = λ m. 1;
  mac_update = λ m input. m + length input;
  mac_digest = λ m. (m ∷ [], 0);
  codec = λ d input. (input, d + length input);
  length-crypt = λ c input. length-plus input;
  block_size-crypt = λ c input. refl;
  length-mac_digest = λ m. refl;
  mac_size-update = λ m input. refl;
}

abbrev keys : Keys ℕ ℕ ℕ
keys = record { mac = some 0; crypto = some 1; deflate = none }

deflated_example : deflate_packet plus_one none zeros (2 ∷ 3 ∷ []) ≡ returns (2 ∷ 3 ∷ [], none)
unfolding deflate_packet
deflated_example = refl

encrypt_packet_lem_example :
    (encrypt_packet plus_one small_externals zeros zeros keys 7 (2 ∷ 3 ∷ [])
      ≡ returns (
        map (λ x. x + 1) (frame plus_one 16 zeros (2 ∷ 3 ∷ []))
            ++ ((0 + 4 + length (frame plus_one 16 zeros (2 ∷ 3 ∷ []))) ∷ []),
        record { mac = some 0; crypto = some 1; deflate = none },
      ))
    × (length (frame plus_one 16 zeros (2 ∷ 3 ∷ [])) % 16 ≡ 0)
    × (4 ≤ padding_length 16 2)
    × (padding_length 16 2 < 256)
encrypt_packet_lem_example =
    encrypt_packet_lem plus_one small_externals zeros zeros keys 7 (2 ∷ 3 ∷ []) (2 ∷ 3 ∷ []) none
      (length-zeros, length-zeros) (omega arith) deflated_example (omega arith)
      (omega arith, omega arith) (omega arith)

padding_example : padding_length 16 2 ≡ 9
unfolding padding_length new_size
padding_example = refl

plus_one-IsUsable : IsUsable plus_one
plus_one-IsUsable = record {
  blocks = λ c. (omega arith, omega arith);
  macs = λ m. omega arith;
  compressed = λ d packet h k. (h, omega arith);
}

encrypt_packet-Encrypts_example :
    Encrypts (encrypt_packet plus_one small_externals zeros zeros) (sealed plus_one zeros)
encrypt_packet-Encrypts_example =
    encrypt_packet-Encrypts plus_one small_externals zeros zeros (length-zeros, length-zeros)
      plus_one-IsUsable
