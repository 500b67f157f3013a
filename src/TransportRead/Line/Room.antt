-- ===== src/TransportRead/Line/Room.antt =====
-- src/ssh_read.c: ssh_read_some with the limit of a line.
use lsh.Prelude.{
  ℕ, ◌-◌, ◌<◌, ◌≡◌, refl, sym, ap, ◌∙◌, false, not, List, ◌++◌, if◌then◌else◌, ◌==◌, ltb, length,
  add32, returns, arith, Bool-cases, inl, inr, append-nil, ◌||◌,
}
use lsh.SshRead.{
  SshReadState, ssh_read_push, Input, read_error, read_end, read_bytes, ssh_read_pending,
  make_read_room, ssh_read_some,
}
use lsh.TransportRead.Line.Reads.{arrived}
use lsh.Prelude.{some}

make_read_room_lem :
    (self : SshReadState)
    → self.size ≡ 35000
    → (moved : SshReadState) × (make_read_room self 1000 ≡ returns moved)
      × (moved.input ≡ self.input)
      × (moved.size ≡ self.size)
unfolding make_read_room
make_read_room_lem self size = elim (Bool-cases (ltb self.size (add32 self.start 1000))) [
  | inl h ↦
      let z : (self.start == 0) ≡ false = ground arith in
      (record self { start = 0 }, rw (h, z) refl, refl, refl)
  | inr h ↦ (self, rw h refl, refl, refl)
]

in_range :
    (self : SshReadState)
    → self.size ≡ 35000
    → length self.input < 1000
    → (not (ltb 1000 self.size) || not (ltb (length self.input) 1000)) ≡ false
in_range self size short = ground arith

pub ssh_read_some_lem :
    (self : SshReadState) (input : Input)
    → self.size ≡ 35000
    → length self.input < 1000
    → (super : SshReadState) × (ssh_read_some self 1000 input ≡ returns super)
      × (super.input ≡ self.input ++ arrived (some input))
      × (super.size ≡ self.size)
unfolding ssh_read_some
ssh_read_some_lem self (read_error w) size short =
    let (moved, room, same, kept) = make_read_room_lem self size in
    (moved, rw (in_range self size short, room) refl, same ∙ sym (append-nil self.input), kept)
ssh_read_some_lem self read_end size short =
    let (moved, room, same, kept) = make_read_room_lem self size in
    (moved, rw (in_range self size short, room) refl, same ∙ sym (append-nil self.input), kept)
ssh_read_some_lem self (read_bytes bytes readable) size short =
    let (moved, room, same, kept) = make_read_room_lem self size in
    (
      record moved {
        input = moved.input ++ bytes;
        read_status =
            if ltb (length bytes) (1000 - length moved.input) || not readable
            then ssh_read_push
            else ssh_read_pending;
      },
      rw (in_range self size short, room) refl,
      ap {A = List ℕ} (λ xs. xs ++ bytes) same,
      kept,
    )
