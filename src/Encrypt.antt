-- ===== src/Encrypt.antt =====
-- src/encrypt.c: a packet is deflated, framed with its padding, authenticated and encrypted.
pub mod Frame
pub mod Packet
pub mod Stream
pub mod Runs
use lsh.Prelude.{
  ℕ, ◌+◌, ◌*◌, ◌/◌, ◌%◌, ◌^◌, ◌≡◌, List, [], ◌∷◌, ◌++◌, if◌then◌else◌, ◌==◌, ltb, leb, not, length,
  take, drop, add32, sub32, Option, none, some, Run, aborted, returns, then_run,
}
use lsh.LshString.{lsh_string_write, lsh_string_trunc, uint32_bytes}
use lsh.Format.{Externals, int, lsh_string, reserve}
use lsh.Format.Write.{ssh_format}
use lsh.TransportWrite.{Keys}

-- The objects of crypto.h and compress.h, whose methods call Nettle and zlib. A call gives its output
-- and the new state of the object.
pub record Objects (M C D : Type 0) : Type 0 where
  pub block_size : C → ℕ
  pub crypt : C → List ℕ → List ℕ × C
  pub mac_size : M → ℕ
  pub mac_update : M → List ℕ → M
  pub mac_digest : M → List ℕ × M
  pub codec : D → List ℕ → List ℕ × D
  pub length-crypt : (c : C) (input : List ℕ) → length (crypt c input).0 ≡ length input
  pub block_size-crypt : (c : C) (input : List ℕ) → block_size (crypt c input).1 ≡ block_size c
  pub length-mac_digest : (m : M) → length (mac_digest m).0 ≡ mac_size m
  pub mac_size-update : (m : M) (input : List ℕ) → mac_size (mac_update m input) ≡ mac_size m

unfoldable pub new_size : ℕ → ℕ → ℕ
new_size block_size l = block_size * (1 + add32 8 l / block_size) % 2 ^ 32

-- A uint8_t.
unfoldable pub padding_length : ℕ → ℕ → ℕ
unfolding new_size
padding_length block_size l = sub32 (sub32 (new_size block_size l) l) 5 % 256

-- The frame with room for the MAC, whose padding is still what the new string holds.
unfoldable pub format_frame : Externals → (ℕ → List ℕ) → List ℕ → ℕ → ℕ → Run (List ℕ)
format_frame ext fresh payload padding mac_length =
    ssh_format ext fresh
      (b'%' ∷ b'i' ∷ b'%' ∷ b'c' ∷ b'%' ∷ b'l' ∷ b'f' ∷ b'S' ∷ b'%' ∷ b'l' ∷ b'r' ∷ b'%' ∷ b'l'
        ∷ b'r' ∷ [])
      (int (add32 (add32 (length payload) padding) 1)
        ∷ int padding
        ∷ lsh_string payload
        ∷ reserve padding
        ∷ reserve mac_length
        ∷ [])

module _ {M C D : Type 0} (objects : Objects M C D) where
  abbrev pub block_size_of : Option C → ℕ
  block_size_of none = 8
  block_size_of (some c) = objects.block_size c

  abbrev pub mac_size_of : Option M → ℕ
  mac_size_of none = 0
  mac_size_of (some m) = objects.mac_size m

  -- The payload that is framed, and the compressor behind it.
  unfoldable pub deflate_packet : Option D → (ℕ → List ℕ) → List ℕ → Run (List ℕ × Option D)
  deflate_packet none fresh packet = returns (packet, none)
  deflate_packet (some d) fresh packet =
      let (out, d') = objects.codec d packet in
      if length out == 0
      then aborted
      else if leb (length out) (length (fresh 35000))
      then returns (out, some d')
      else aborted

  -- The MAC of the sequence number and the frame is written behind the frame.
  unfoldable pub add_mac : Option M → ℕ → ℕ → ℕ → List ℕ → Run (List ℕ × Option M)
  add_mac none seqno size mac_start packet = returns (packet, none)
  add_mac (some mac) seqno size mac_start packet =
      let (digest, mac') =
        objects.mac_digest
          (objects.mac_update (objects.mac_update mac (uint32_bytes seqno)) (take size packet)) in
      if not (size == mac_start)
      then aborted
      else then_run (lsh_string_write packet mac_start digest) (λ p. returns (p, some mac'))

  -- The bytes before the MAC are encrypted in place.
  unfoldable pub encrypt_frame : Option C → ℕ → List ℕ → List ℕ × Option C
  encrypt_frame none size packet = (packet, none)
  encrypt_frame (some c) size packet =
      let (out, c') = objects.crypt c (take size packet) in (out ++ drop size packet, some c')

  -- `random_bytes` are those of the random generator.
  unfoldable pub encrypt_packet :
      Externals → (ℕ → List ℕ) → (ℕ → List ℕ) → Keys M C D → ℕ → List ℕ → Run (List ℕ × Keys M C D)
  unfolding deflate_packet format_frame add_mac encrypt_frame padding_length new_size
  encrypt_packet ext fresh random_bytes keys seqno packet =
      if length packet == 0
      then aborted
      else then_run (deflate_packet keys.deflate fresh packet) (λ (payload, deflate).
        let block_size = block_size_of keys.crypto in
        let mac_length = mac_size_of keys.mac in
        let size = new_size block_size (length payload) in
        let padding = padding_length block_size (length payload) in
        let start = add32 5 (length payload) in
        if ltb padding 4
        then aborted
        else then_run (format_frame ext fresh payload padding mac_length) (λ frame.
          if not (add32 size mac_length == length frame)
          then aborted
          else then_run (lsh_string_write frame start (random_bytes padding)) (λ padded.
            then_run (add_mac keys.mac seqno size (add32 start padding) padded) (λ (signed, mac).
              let (encrypted, crypto) = encrypt_frame keys.crypto size signed in
              returns (encrypted, record { mac = mac; crypto = crypto; deflate = deflate })))))
