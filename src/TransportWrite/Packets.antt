-- ===== src/TransportWrite/Packets.antt =====
-- src/transport_write.c: transport_write_packet, with the padding that it adds.
use lsh.Prelude.{
  ℕ, ◌+◌, ◌≤◌, ◌^◌, ◌<◌, ◌≡◌, refl, ap, ◌∙◌, Bool, true, false, not, ◌&&◌, ◌||◌, List, [], ◌∷◌,
  ◌++◌, append_assoc, length-append, Option, none, some, if◌then◌else◌, ◌==◌, leb, ltb, length,
  get_or, add32, Run, returns, then_run, arith, Bool-cases, inl, inr,
}
use lsh.LshString.{lsh_string_write}
use lsh.LshString.Cells.{Cells, fill, length-fill_at, lsh_string_write-room, fill-all}
use lsh.Format.{Externals, int, reserve, is_option}
use lsh.Format.Render.{render, render_step, render_directive, gap}
use lsh.Format.Whole.{ssh_format-render}
use lsh.SshWrite.Buffer.{pending, IsValid, length-pending}
use lsh.SshWrite.Enqueue.{ssh_write_enqueue_lem}
use lsh.TransportWrite.{
  Keys, TransportWriteState, Result, System, is_error, is_some, enqueue, mark_ignore, write_data,
  select_write_size, make_ignore_packet, after, transport_write_packet,
}
use lsh.TransportWrite.Keeps.{is_overflow, IsReady, Progress, Sends, Obeys}
use lsh.TransportWrite.Stream.{data_size, tries, tries-push, push-Sends, write_data-Sends}

abbrev ignore_cells : Cells
ignore_cells = some 2 ∷ some 0 ∷ some 0 ∷ some 0 ∷ some 10 ∷ gap 10

render_lem :
    (ext : Externals)
    → render ext (b'%' ∷ b'c' ∷ b'%' ∷ b'r' ∷ []) none (int 2 ∷ reserve 10 ∷ [])
      ≡ some (ignore_cells)
unfolding render render_step render_directive is_option
render_lem ext = refl

-- The packet of an SSH_MSG_IGNORE message.
abbrev pub ignore_packet : List ℕ → List ℕ
ignore_packet r = 2 ∷ 0 ∷ 0 ∷ 0 ∷ 10 ∷ r

filled-gap :
    (s r : List ℕ)
    → length s ≡ 15
    → length r ≡ 10
    → lsh_string_write (fill ignore_cells s) 5 r ≡ returns (ignore_packet r)
filled-gap (y0 ∷ y1 ∷ y2 ∷ y3 ∷ y4 ∷ s) r e f =
    lsh_string_write-room (ignore_packet (fill (gap 10) s)) 5 r
      (omega (arith, length-fill_at s 0 (gap 10)))
    ∙ ap {A = List ℕ} (λ t. returns (ignore_packet t))
        (fill-all r (fill (gap 10) s) (omega (arith, length-fill_at s 0 (gap 10))))
filled-gap _ r e f = absurd (omega arith)

module _ {M C D : Type 0} where
  -- `encrypt_packet` makes `cipher` of every packet of at most 2^15 bytes.
  abbrev pub Encrypts :
      (Keys M C D → ℕ → List ℕ → Run (List ℕ × Keys M C D))
      → (Keys M C D → ℕ → List ℕ → List ℕ × Keys M C D)
      → Type 0
  Encrypts encrypt_packet cipher =
      (keys : Keys M C D) (seqno : ℕ) (packet : List ℕ)
      → 0 < length packet
      → length packet ≤ 2 ^ 15
      → (encrypt_packet keys seqno packet ≡ returns (cipher keys seqno packet))
        × (0 < length (cipher keys seqno packet).0)
        × (length (cipher keys seqno packet).0 < 2 ^ 24)

  module _ (encrypt_packet : Keys M C D → ℕ → List ℕ → Run (List ℕ × Keys M C D))
      (cipher : Keys M C D → ℕ → List ℕ → List ℕ × Keys M C D) where
    -- The state behind a packet.
    abbrev pub sent_state : TransportWriteState M C D → List ℕ → TransportWriteState M C D
    sent_state self packet = record self {
      keys = (cipher self.keys self.seqno packet).1;
      seqno = add32 self.seqno 1;
    }

    make_ignore_packet_lem :
        (ext : Externals) (fresh random_bytes : ℕ → List ℕ) (self : TransportWriteState M C D)
        → ((n : ℕ) → length (fresh n) ≡ n)
        → length (random_bytes 10) ≡ 10
        → Encrypts encrypt_packet cipher
        → make_ignore_packet encrypt_packet ext fresh random_bytes self 10
          ≡ returns (
            (cipher self.keys self.seqno (ignore_packet (random_bytes 10))).0,
            sent_state self (ignore_packet (random_bytes 10)),
          )
    unfolding make_ignore_packet
    make_ignore_packet_lem ext fresh random_bytes self sized ten encrypts =
        rw
          (
            ssh_format-render ext fresh (b'%' ∷ b'c' ∷ b'%' ∷ b'r' ∷ []) (int 2 ∷ reserve 10 ∷ [])
                ignore_cells sized (render_lem ext) (omega arith),
            filled-gap (fresh 15) (random_bytes 10) (sized 15) ten,
            (encrypts self.keys self.seqno (ignore_packet (random_bytes 10)) (omega arith)
                (omega arith)).0,
          )
          refl

    abbrev pub encrypted : TransportWriteState M C D → List ℕ → List ℕ
    encrypted self packet = (cipher self.keys self.seqno packet).0

    -- The packet that may follow it as padding.
    abbrev pub padding : TransportWriteState M C D → List ℕ → List ℕ → List ℕ
    padding self packet random = encrypted (sent_state self packet) (ignore_packet random)

    -- Whether a packet is padded: it is pushed, and the buffer does not reach the threshold.
    abbrev pub is_padded : TransportWriteState M C D → Bool → Bool → List ℕ → Bool
    is_padded self push ignore packet =
        (push && not ignore)
        && (is_some (sent_state self packet).keys.crypto
            && ltb (add32 (length (encrypted self packet)) self.super.length) self.threshold)

    -- The bytes that are added to the stream.
    abbrev pub packet_bytes : TransportWriteState M C D → Bool → Bool → List ℕ → List ℕ → List ℕ
    packet_bytes self push ignore packet random =
        if is_padded self push ignore packet
        then encrypted self packet ++ padding self packet random
        else encrypted self packet

    -- The size of the attempt to write them.
    abbrev pub packet_size : TransportWriteState M C D → Bool → Bool → List ℕ → List ℕ → Option ℕ
    packet_size self push ignore packet random =
        if is_padded self push ignore packet
        then select_write_size
            (add32 (self.super.length + length (encrypted self packet))
              (length (padding self packet random)))
            (length (padding self packet random)) self.threshold
        else data_size (sent_state self packet) ignore (encrypted self packet)

    -- `Sends`, where the number of the next packet may change.
    abbrev pub Streams :
        Bool → System → TransportWriteState M C D → List ℕ → Run (Result M C D) → Type 0
    Streams tried system self bytes r =
        (x : Result M C D) × (lost : List ℕ) × (r ≡ returns x)
        × IsValid x.state.super
        × (x.sent ++ (pending x.state.super ++ lost) ≡ pending self.super ++ bytes)
        × ((length lost == 0) ≡ not (is_overflow x.status))
        × (is_overflow x.status ≡ false → IsReady x.state × Progress tried system x)

    Sends-Streams :
        (tried : Bool) (system : System) (self next : TransportWriteState M C D) (bytes : List ℕ)
        (r : Run (Result M C D))
        → next.super ≡ self.super
        → Sends tried system next bytes r
        → Streams tried system self bytes r
    Sends-Streams tried system self next bytes r same (x, lost, e, v, q, o, k, m) =
        (x, lost, e, v, rw same at q, o, k)

    -- Nothing was sent by the first of two calls, and the second adds its bytes.
    after-Streams :
        (tried : Bool) (system : System) (self first : TransportWriteState M C D)
        (bytes more : List ℕ) (r : Run (Result M C D))
        → pending first.super ≡ pending self.super ++ bytes
        → Sends tried system first more r
        → Streams tried system self (bytes ++ more) (after encrypt_packet [] r)
    after-Streams tried system self first bytes more r p (x, lost, e, v, q, o, k, m) = (
      x,
      lost,
      rw e refl,
      v,
      q ∙ ap {A = List ℕ} (λ xs. xs ++ more) p ∙ append_assoc (pending self.super) bytes more,
      o,
      k,
    )

    -- A padded packet: the first call keeps it in the buffer, the second may write.
    padded-Streams :
        (ext : Externals) (fresh random_bytes : ℕ → List ℕ) (self : TransportWriteState M C D)
        (bytes : List ℕ) (first second : System)
        → ((n : ℕ) → length (fresh n) ≡ n)
        → length (random_bytes 10) ≡ 10
        → Encrypts encrypt_packet cipher
        → IsReady self
        → (0 < length bytes) × (length bytes < 2 ^ 24)
        → ltb (add32 (length bytes) self.super.length) self.threshold ≡ true
        → (first.has_fd ≡ true) × (second.has_fd ≡ true)
        → Obeys second (
            select_write_size
              (add32
                (self.super.length + length bytes)
                (length (encrypted self (ignore_packet (random_bytes 10)))))
              (length (encrypted self (ignore_packet (random_bytes 10))))
              self.threshold)
        → Streams true second self (bytes ++ encrypted self (ignore_packet (random_bytes 10))) (
            then_run (write_data self false false bytes first) (λ r.
              if is_error r.status
              then returns r
              else then_run
                  (make_ignore_packet encrypt_packet ext fresh random_bytes r.state 10)
                  (λ (padding, padded).
                    after encrypt_packet r.sent (write_data padded true true padding second))))
    unfolding write_data enqueue mark_ignore
    padded-Streams ext fresh random_bytes self bytes first second sized ten encrypts ready
          (some_bytes, few) below (fd, fd') obeys =
        let v = ready.valid in
        let (pe, pp, pl) =
          encrypts self.keys self.seqno (ignore_packet (random_bytes 10)) (omega arith)
            (omega arith) in
        let small : length bytes + self.super.length < 2 ^ 32 =
          let i = v.inside in let k = v.small in omega arith in
        let (t, q, u, waits, room) = ssh_write_enqueue_lem self.super bytes v small in
        elim (Bool-cases (leb (length bytes + self.super.length) (length self.super.buffer))) [
          | inl fits ↦
              let all : pending t ≡ pending self.super ++ bytes = (rw fits at waits) in
              let long : t.length ≡ self.super.length + length bytes = omega (
                arith,
                ap length all,
                length-append (pending self.super) bytes,
                length-pending t u,
                length-pending self.super v,
              ) in
              let kept : TransportWriteState M C D = record self { super = t; ignore = 0 } in
              let next : TransportWriteState M C D =
                sent_state kept (ignore_packet (random_bytes 10)) in
              rw
                (
                  fd,
                  below,
                  q,
                  fits,
                  make_ignore_packet_lem ext fresh random_bytes kept sized ten encrypts,
                )
                (after-Streams true second self next bytes _ _ all (
                  push-Sends next true _ second pp fd'
                    (record {
                      valid = u;
                      ignorable = omega arith;
                      positive = ready.positive;
                      small = ready.small;
                    })
                    (let i = v.inside in let k = v.small in omega arith) (λ h. omega arith)
                    (λ n e. obeys n (
                      sizes t.length (length (encrypted self (ignore_packet (random_bytes 10))))
                        long (omega arith)
                      ∙ e))))
          | inr full ↦
              let all : pending t ≡ pending self.super = (rw full at waits) in
              rw (fd, below, q, full)
                (
                  _,
                  bytes ++ encrypted self (ignore_packet (random_bytes 10)),
                  refl,
                  u,
                  ap {A = List ℕ}
                      (λ xs. xs ++ (bytes ++ encrypted self (ignore_packet (random_bytes 10)))) all,
                  ground (
                    arith,
                    length-append bytes (encrypted self (ignore_packet (random_bytes 10))),
                  ),
                  λ h. cc,
                )
        ]
      where
        sizes :
            (l p : ℕ)
            → l ≡ self.super.length + length bytes
            → p < 2 ^ 32
            → select_write_size (add32 (self.super.length + length bytes) p) p self.threshold
              ≡ select_write_size (add32 l p) (add32 0 p) self.threshold
        sizes l p e h = let z : add32 0 p ≡ p = omega arith in rw (e, z) refl

    -- Where the parts that encrypt and give random bytes work, and there is a descriptor, a packet of at most 2^15 bytes that is
    -- sent from a ready state is added to the stream, encrypted, with the padding packet if it is padded, without a failed
    -- assertion; nothing that waited is reordered, bytes are lost just on an overflow. Else the state is
    -- ready again, and just the bytes are sent that the system takes in the last attempt, if the packet is pushed or
    -- the buffer reaches the threshold, and nothing if not. Required is that an SSH_MSG_IGNORE packet is not pushed where nothing but ignorable
    -- data waits, and that the system takes at most what it is given.
    pub transport_write_packet-Streams :
        (ext : Externals) (fresh random_bytes : ℕ → List ℕ) (self : TransportWriteState M C D)
        (push ignore_flag : Bool) (packet : List ℕ) (first second : System)
        → ((n : ℕ) → length (fresh n) ≡ n)
        → length (random_bytes 10) ≡ 10
        → Encrypts encrypt_packet cipher
        → IsReady self
        → (0 < length packet) × (length packet ≤ 2 ^ 15)
        → ((push && (ignore_flag || get_or packet 0 0 == 2)) ≡ true
            → self.ignore < self.super.length)
        → (first.has_fd ≡ true) × (second.has_fd ≡ true)
        → Obeys second
            (packet_size self push (ignore_flag || get_or packet 0 0 == 2) packet (random_bytes 10))
        → Streams
            (tries self push (encrypted self packet))
            second
            self
            (packet_bytes self push
              (ignore_flag || get_or packet 0 0 == 2)
              packet
              (random_bytes 10))
            (transport_write_packet encrypt_packet ext fresh random_bytes self push ignore_flag
              packet first second)
    unfolding transport_write_packet mark_ignore
    transport_write_packet-Streams ext fresh random_bytes self push ignore_flag packet first second
          sized ten encrypts ready (some_bytes, few) ends (fd, fd') obeys =
        let (e, p, l) = encrypts self.keys self.seqno packet some_bytes few in
        let v = ready.valid in
        let z : (length packet == 0) ≡ false = ground arith in
        elim (Bool-cases (is_padded self push (ignore_flag || get_or packet 0 0 == 2) packet)) [
          | inl padded ↦
              let is_push : push ≡ true = ground arith in
              let below : ltb (add32 (length (encrypted self packet)) self.super.length)
                    self.threshold
                  ≡ true =
                ground arith in
              rw (z, e, padded)
                (rw (is_push, tries-push self (encrypted self packet) p)
                  (padded-Streams ext fresh random_bytes next (encrypted self packet) first second
                    sized ten encrypts (ready_next ready) (p, l) below (fd, fd')
                    (rw padded at obeys)))
          | inr plain ↦
              rw (z, e, plain)
                (Sends-Streams (tries self push (encrypted self packet)) second self next
                  (encrypted self packet) _ refl
                  (write_data-Sends next push (ignore_flag || get_or packet 0 0 == 2)
                    (encrypted self packet) second fd' (ready_next ready)
                    (let i = v.inside in let k = v.small in omega arith) ends (rw plain at obeys)))
        ]
      where
        next : TransportWriteState M C D
        next = sent_state self packet

        ready_next : IsReady self → IsReady next
        ready_next r = record {
          valid = r.valid;
          ignorable = r.ignorable;
          positive = r.positive;
          small = r.small;
        }
