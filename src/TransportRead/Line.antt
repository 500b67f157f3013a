-- ===== src/TransportRead/Line.antt =====
-- src/transport_read.c: the lines before the first packet.
pub mod Reads
pub mod Room
pub mod Whole
use lsh.Prelude.{
  ℕ, suc, ◌+◌, ◌-◌, Bool, true, false, not, ◌&&◌, List, [], ◌∷◌, if◌then◌else◌, ◌==◌, ltb, length,
  take, drop, get_or, add32, Option, none, some, Run, returns, then_run,
}
use lsh.SshRead.{
  SshReadState, ReadStatus, ssh_read_push, Input, read_error, read_end, read_bytes, ssh_read_some,
}
use lsh.TransportRead.{TransportReadState}

-- memchr
unfoldable pub find_byte : ℕ → List ℕ → Option ℕ
find_byte c [] = none
find_byte c (x ∷ xs) =
    let rest = find_byte c xs in
    if x == c then some 0 else elim rest [ none ↦ none | some i ↦ some (suc i) ]

pub data LineResult : Type 0 where
  line_io_error : LineResult
  line_too_long : LineResult
  line_unexpected_eof : LineResult
  line_eof : LineResult
  line_status : ReadStatus → LineResult
  line_complete : List ℕ → LineResult

-- The characters of a line before its newline, without a carriage return at the end.
unfoldable pub chop_return : List ℕ → List ℕ
chop_return line =
    let l = length line in take (l - (if ltb 0 l && get_or line (l - 1) 0 == 13 then 1 else 0)) line

-- With the place of the newline.
unfoldable pub line_at : SshReadState → Option ℕ → LineResult × SshReadState
line_at self (some i) = if not (ltb i 255) then (line_too_long, self) else (
  line_complete (chop_return (take i self.input)),
  record self { start = add32 self.start (add32 i 1); input = drop (suc i) self.input },
)
line_at self none =
    if not (ltb (length self.input) 255)
    then (line_too_long, self)
    else (line_status self.read_status, self)

unfoldable pub find_line : SshReadState → LineResult × SshReadState
find_line self = line_at self (find_byte 10 self.input)

-- Behind the search for a line in what is there already.
unfoldable pub read_line : SshReadState → Bool → Input → Run (LineResult × SshReadState)
read_line self may_read input =
    if not may_read
    then returns (line_status self.read_status, self)
    else then_run (ssh_read_some self 1000 input) (λ super. elim input [
      | read_error would_block ↦
          returns (if would_block then line_status ssh_read_push else line_io_error, super)
      | read_end ↦
          returns (if length super.input == 0 then line_eof else line_unexpected_eof, super)
      | read_bytes bytes readable ↦ returns (find_line super)
    ])

-- Only a status lets the search go on.
unfoldable pub line_or_read :
    LineResult × SshReadState → Bool → Input → Run (LineResult × SshReadState)
line_or_read (line_status s, self) may_read input = read_line self may_read input
line_or_read (r, self) may_read input = returns (r, self)

unfoldable pub transport_read_line :
    {M C D : Type 0}
    → TransportReadState M C D
    → Bool
    → Input
    → Run (LineResult × TransportReadState M C D)
transport_read_line self may_read input =
    let read =
      if length self.super.input == 0
      then read_line (record self.super { start = 0 }) may_read input
      else line_or_read (find_line self.super) may_read input in
    then_run read (λ (r, super). returns (r, record self { super = super }))
