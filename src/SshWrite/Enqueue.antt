-- ===== src/SshWrite/Enqueue.antt =====
-- ssh_write_enqueue adds data behind the bytes that wait.
use lsh.Prelude.{
  ℕ, ◌+◌, ◌≤◌, ◌<◌, ◌^◌, ◌≡◌, refl, ap, ◌∙◌, true, false, not, List, ◌++◌, if◌then◌else◌, ◌==◌,
  ◌&&◌, ltb, leb, length, take, drop, arith, length-drop, returns, add32, Bool-cases, inl, inr,
}
use lsh.LshString.{write_at, has_room, lsh_string_move, lsh_string_write}
use lsh.SshWrite.{SshWriteState, make_room, ssh_write_enqueue}
use lsh.SshWrite.Buffer.{
  pending, IsValid, take-write_at, drop-write_at, length-write_at, length-pending,
}

-- The buffer after the data has found room: the same bytes wait.
abbrev Makes : SshWriteState → ℕ → SshWriteState → Type 0
Makes s n t =
    (make_room s n ≡ returns t)
    × IsValid t
    × (pending t ≡ pending s)
    × (t.length ≡ s.length)
    × (length t.buffer ≡ length s.buffer)
    × (t.start + t.length + n ≤ length t.buffer)

make_room-stay :
    (s : SshWriteState) (n : ℕ)
    → IsValid s
    → n + s.length ≤ length s.buffer
    → n + s.length + s.start ≤ length s.buffer
    → Makes s n s
unfolding make_room
make_room-stay s n v room h =
    let e : ltb (length s.buffer) (add32 (add32 n s.length) s.start) ≡ false =
      ground (arith, v.small) in
    (rw e refl, v, refl, refl, refl, omega arith)

abbrev moved : SshWriteState → SshWriteState
moved s = record s { buffer = write_at s.buffer 0 (pending s); start = 0 }

make_room-move :
    (s : SshWriteState) (n : ℕ)
    → IsValid s
    → n + s.length ≤ length s.buffer
    → length s.buffer < n + s.length + s.start
    → Makes s n (moved s)
unfolding make_room lsh_string_move
make_room-move s n v room h =
    let e : ltb (length s.buffer) (add32 (add32 n s.length) s.start) ≡ true =
      ground (arith, v.small, v.inside) in
    let e' : (has_room s.buffer 0 s.length && not (0 == s.start)) ≡ true = ground arith in
    let same : length (write_at s.buffer 0 (pending s)) ≡ length s.buffer =
      length-write_at s.buffer 0 (pending s) in
    let wait : length (pending s) ≡ s.length = length-pending s v in
    (
      rw (e, e') refl,
      record { inside = omega (arith, same, v.inside); small = omega (arith, same, v.small) },
      ap {A = ℕ} (λ m. take m (write_at s.buffer 0 (pending s))) (omega (arith, wait))
          ∙ take-write_at s.buffer 0 (pending s) (omega (arith, wait, v.inside)),
      refl,
      same,
      omega (arith, same),
    )

make_room-Makes :
    (s : SshWriteState) (n : ℕ)
    → IsValid s
    → n + s.length ≤ length s.buffer
    → (t : SshWriteState) × Makes s n t
make_room-Makes s n v room = elim (Bool-cases (leb (n + s.length + s.start) (length s.buffer))) [
  | inl e ↦ (s, make_room-stay s n v room (ground arith))
  | inr e ↦ (moved s, make_room-move s n v room (ground arith))
]

-- The write behind the bytes that wait.
abbrev appended : SshWriteState → List ℕ → SshWriteState
appended t bytes = record t {
  buffer = write_at t.buffer (t.start + t.length) bytes;
  length = t.length + length bytes;
}

appended-pending :
    (t : SshWriteState) (bytes : List ℕ)
    → t.start + t.length + length bytes ≤ length t.buffer
    → pending (appended t bytes) ≡ pending t ++ bytes
appended-pending t bytes h =
    ap {A = List ℕ} (take (t.length + length bytes)) (drop-write_at t.buffer t.start t.length bytes)
    ∙ take-write_at (drop t.start t.buffer) t.length bytes
        (omega (arith, length-drop t.start t.buffer))

enqueue-appended :
    (s t : SshWriteState) (bytes : List ℕ)
    → IsValid s
    → length bytes + s.length ≤ length s.buffer
    → Makes s (length bytes) t
    → ssh_write_enqueue s bytes ≡ returns (true, appended t bytes)
unfolding ssh_write_enqueue lsh_string_write
enqueue-appended s t bytes v h (made, vt, waits, same, size, room) =
    let e : ltb (length s.buffer) (add32 (length bytes) s.length) ≡ false =
      ground (arith, v.small) in
    let place : add32 t.start t.length ≡ t.start + t.length = omega (arith, vt.small) in
    let e' : has_room t.buffer (t.start + t.length) (length bytes) ≡ true = ground (arith) in
    let total : add32 t.length (length bytes) ≡ t.length + length bytes = omega (arith, vt.small) in
    rw (e, made, place, e', total) refl

enqueue-full :
    (s : SshWriteState) (bytes : List ℕ)
    → length bytes + s.length < 2 ^ 32
    → length s.buffer < length bytes + s.length
    → ssh_write_enqueue s bytes ≡ returns (false, s)
unfolding ssh_write_enqueue
enqueue-full s bytes h k = ground arith

-- Data that fits behind the bytes that wait is added to them, by moving them if it must; data that
-- does not fit is refused, and the buffer is as before. No assertion fails.
pub ssh_write_enqueue_lem :
    (s : SshWriteState) (bytes : List ℕ)
    → IsValid s
    → length bytes + s.length < 2 ^ 32
    → (t : SshWriteState) × (ssh_write_enqueue s bytes
        ≡ returns (leb (length bytes + s.length) (length s.buffer), t))
      × IsValid t
      × (pending t ≡ (
          if leb (length bytes + s.length) (length s.buffer)
          then pending s ++ bytes
          else pending s))
      × (length t.buffer ≡ length s.buffer)
ssh_write_enqueue_lem s bytes v small =
    elim (Bool-cases (leb (length bytes + s.length) (length s.buffer))) [
      | inl e ↦
          let (t, (made, vt, waits, same, size, room)) =
            make_room-Makes s (length bytes) v (ground arith) in
          let written : length (write_at t.buffer (t.start + t.length) bytes) ≡ length t.buffer =
            length-write_at t.buffer (t.start + t.length) bytes in
          (
            appended t bytes,
            rw e (enqueue-appended s t bytes v (ground arith) (made, vt, waits, same, size, room)),
            record {
              inside = omega (arith, written, room);
              small = omega (arith, written, vt.small);
            },
            rw e (appended-pending t bytes room ∙ ap {A = List ℕ} (λ xs. xs ++ bytes) waits),
            omega (arith, written, size),
          )
      | inr e ↦ (s, rw e (enqueue-full s bytes small (ground arith)), v, rw e refl, refl)
    ]
