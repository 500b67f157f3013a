-- ===== src/Encrypt/Packet.antt =====
-- src/encrypt.c: encrypt_packet as a whole.
use native.Mathlib.Nat.{mul-mod_right}
use lsh.Prelude.{
  ℕ, ◌+◌, ◌%◌, ◌^◌, ◌≤◌, ◌<◌, ◌≡◌, refl, sym, ap, ◌∙◌, List, [], ◌∷◌, ◌++◌, append_assoc,
  append-nil, length-append, ◌==◌, ltb, length, drop, take-append, drop-append, drop-length,
  length-drop, add32, Option, none, some, false, true, returns, arith,
}
use lsh.LshString.{uint32_bytes}
use lsh.LshString.Cells.{solid, length-solid}
use lsh.Format.{Externals}
use lsh.Format.Render.{gap}
use lsh.Format.Whole.{ssh_format-render}
use lsh.TransportWrite.{Keys}
use lsh.Encrypt.{
  Objects, block_size_of, mac_size_of, deflate_packet, new_size, padding_length, format_frame,
  add_mac, encrypt_frame, encrypt_packet,
}
use lsh.Encrypt.Frame.{
  new_size_lem, padding_length_lem, lsh_string_write-behind, fill-front, length-gap, frame_head,
  render-frame,
}

-- The front of the string behind format_frame, and the bytes with room for the padding and the MAC.
format_frame_lem :
    (ext : Externals) (fresh : ℕ → List ℕ) (payload : List ℕ) (padding mac : ℕ)
    → ((n : ℕ) → length (fresh n) ≡ n)
    → length payload < 2 ^ 24
    → padding < 256
    → mac < 2 ^ 16
    → (t : List ℕ) × (format_frame ext fresh payload padding mac
        ≡ returns (frame_head payload padding ++ t))
      × (length t ≡ padding + mac)
unfolding format_frame
format_frame_lem ext fresh payload padding mac sized fits small few = (
  drop (length (frame_head payload padding)) (fresh (length cells)),
  rw total (
      ssh_format-render ext fresh _ _ cells sized
        (render-frame ext payload (length payload + padding + 1) padding mac small)
        (omega (arith, long))
      ∙ ap {A = List ℕ} returns (
          fill-front (frame_head payload padding) (fresh (length cells)) padding mac
            (omega (arith, long, sized (length cells))))),
  omega (
    arith,
    long,
    sized (length cells),
    length-drop (length (frame_head payload padding)) (fresh (length cells)),
  ),
)
  where
    cells : List (Option ℕ)
    cells = solid (frame_head payload padding) ++ (gap padding ++ gap mac)

    long : length cells ≡ length (frame_head payload padding) + (padding + mac)
    long = omega (
      arith,
      length-append (solid (frame_head payload padding)) (gap padding ++ gap mac),
      length-append (gap padding) (gap mac),
      length-gap padding,
      length-gap mac,
      length-solid (frame_head payload padding),
    )

    total : add32 (add32 (length payload) padding) 1 ≡ length payload + padding + 1
    total = omega arith

module _ {M C D : Type 0} (objects : Objects M C D) where
  -- The frame of a payload: its length, the length of the padding, the payload and the padding.
  abbrev pub frame : ℕ → (ℕ → List ℕ) → List ℕ → List ℕ
  frame block_size random_bytes payload =
      frame_head payload (padding_length block_size (length payload))
      ++ random_bytes (padding_length block_size (length payload))

  -- The MAC of a sequence number and a frame.
  abbrev pub signature : Option M → ℕ → List ℕ → List ℕ × Option M
  signature none seqno bytes = ([], none)
  signature (some mac) seqno bytes =
      let (digest, mac') =
        objects.mac_digest
          (objects.mac_update (objects.mac_update mac (uint32_bytes seqno)) bytes) in
      (digest, some mac')

  abbrev pub ciphertext : Option C → List ℕ → List ℕ × Option C
  ciphertext none bytes = (bytes, none)
  ciphertext (some c) bytes = let (out, c') = objects.crypt c bytes in (out, some c')

  add_mac_lem :
      (mac : Option M) (seqno size mac_start : ℕ) (bytes t : List ℕ)
      → size ≡ length bytes
      → mac_start ≡ size
      → length t ≡ mac_size_of objects mac
      → add_mac objects mac seqno size mac_start (bytes ++ t)
        ≡ returns (bytes ++ (signature mac seqno bytes).0, (signature mac seqno bytes).1)
  unfolding add_mac
  add_mac_lem none seqno size mac_start bytes [] e f l = refl
  add_mac_lem none seqno size mac_start bytes (y ∷ t) e f l = absurd (omega arith)
  add_mac_lem (some mac) seqno size mac_start bytes t e f l =
      let same : (size == mac_start) ≡ true = ground arith in
      let m = objects.mac_update (objects.mac_update mac (uint32_bytes seqno)) bytes in
      let long : length (objects.mac_digest m).0 ≡ length t =
        objects.length-mac_digest m
        ∙ objects.mac_size-update (objects.mac_update mac (uint32_bytes seqno)) bytes
        ∙ objects.mac_size-update mac (uint32_bytes seqno)
        ∙ sym l in
      let all : drop (length (objects.mac_digest m).0) t ≡ [] =
        ap {A = ℕ} (λ n. drop n t) long ∙ drop-length t in
      rw
        (
          same,
          f,
          e,
          take-append bytes t,
          lsh_string_write-behind bytes t (objects.mac_digest m).0 (length bytes) refl
              (omega arith),
          all,
          append-nil (objects.mac_digest m).0,
        )
        refl

  encrypt_frame_lem :
      (crypto : Option C) (size : ℕ) (bytes tag : List ℕ)
      → size ≡ length bytes
      → encrypt_frame objects crypto size (bytes ++ tag)
        ≡ ((ciphertext crypto bytes).0 ++ tag, (ciphertext crypto bytes).1)
  unfolding encrypt_frame
  encrypt_frame_lem none size bytes tag e = refl
  encrypt_frame_lem (some c) size bytes tag e =
      rw (e, take-append bytes tag, drop-append bytes tag) refl

  -- With a payload of less than 2^24 bytes behind the compression, a block size of at most 252 and a
  -- MAC of less than 2^16 bytes, encrypt_packet returns without a failed assertion. The result is the
  -- encrypted frame and behind it the MAC of the sequence number and the frame before encryption. The
  -- frame is a multiple of the block size long, and has from 4 to 255 bytes of padding.
  pub encrypt_packet_lem :
      (ext : Externals) (fresh random_bytes : ℕ → List ℕ) (keys : Keys M C D) (seqno : ℕ)
      (packet payload : List ℕ) (deflate : Option D)
      → ((n : ℕ) → length (fresh n) ≡ n) × ((n : ℕ) → length (random_bytes n) ≡ n)
      → 0 < length packet
      → deflate_packet objects keys.deflate fresh packet ≡ returns (payload, deflate)
      → length payload < 2 ^ 24
      → (0 < block_size_of objects keys.crypto) × (block_size_of objects keys.crypto ≤ 252)
      → mac_size_of objects keys.mac < 2 ^ 16
      → (encrypt_packet objects ext fresh random_bytes keys seqno packet
          ≡ returns (
            (ciphertext keys.crypto
                  (frame (block_size_of objects keys.crypto) random_bytes payload)).0
                ++ (signature keys.mac seqno
                    (frame (block_size_of objects keys.crypto) random_bytes payload)).0,
            record {
              mac =
                  (signature keys.mac seqno
                    (frame (block_size_of objects keys.crypto) random_bytes payload)).1;
              crypto =
                  (ciphertext keys.crypto
                    (frame (block_size_of objects keys.crypto) random_bytes payload)).1;
              deflate = deflate;
            },
          ))
        × (length (frame (block_size_of objects keys.crypto) random_bytes payload)
              % block_size_of objects keys.crypto
            ≡ 0)
        × (4 ≤ padding_length (block_size_of objects keys.crypto) (length payload))
        × (padding_length (block_size_of objects keys.crypto) (length payload) < 256)
  unfolding encrypt_packet
  encrypt_packet_lem ext fresh random_bytes keys seqno packet payload deflate (sized, random)
        some_bytes d fits (pos, small) few =
      let (sum, least, most) = padding_length_lem b (length payload) pos small fits in
      let (mult, low, high) = new_size_lem b (length payload) pos small fits in
      let (t, written, room) = format_frame_lem ext fresh payload p mac sized fits most few in
      let z : (length packet == 0) ≡ false = ground arith in
      let enough : ltb p 4 ≡ false = ground arith in
      let total : (add32 (new_size b (length payload)) mac == length (frame_head payload p ++ t))
          ≡ true =
        ground (arith, length-append (frame_head payload p) t) in
      (
        rw
            (
              z,
              d,
              enough,
              written,
              total,
              lsh_string_write-behind (frame_head payload p) t (random_bytes p)
                  (add32 5 (length payload)) (omega arith) (omega (arith, random p)),
              ← append_assoc (frame_head payload p) (random_bytes p)
                  (drop (length (random_bytes p)) t),
              add_mac_lem keys.mac seqno (new_size b (length payload))
                  (add32 (add32 5 (length payload)) p) (frame b random_bytes payload)
                  (drop (length (random_bytes p)) t) (long sum) (omega arith)
                  (omega (arith, random p, length-drop (length (random_bytes p)) t)),
              encrypt_frame_lem keys.crypto (new_size b (length payload))
                  (frame b random_bytes payload)
                  (signature keys.mac seqno (frame b random_bytes payload)).0 (long sum),
            )
            refl,
        rw (← long sum, mult) (mul-mod_right b _),
        least,
        most,
      )
    where
      b : ℕ
      b = block_size_of objects keys.crypto

      p : ℕ
      p = padding_length b (length payload)

      mac : ℕ
      mac = mac_size_of objects keys.mac

      long :
          p + length payload + 5 ≡ new_size b (length payload)
          → new_size b (length payload) ≡ length (frame b random_bytes payload)
      long sum = omega (arith, length-append (frame_head payload p) (random_bytes p), random p)
