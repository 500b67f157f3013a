-- ===== src/TransportRead/Line/Whole.antt =====
-- src/transport_read.c: transport_read_line on every input.
use lsh.Prelude.{
  ℕ, ◌<◌, ◌≡◌, refl, sym, ap, ◌∙◌, Bool, true, false, List, [], ◌++◌, ◌==◌, ltb, length, take,
  length-take, Option, none, some, Run, returns, arith, Bool-cases, inl, inr, ◌⊎◌, append-nil,
}
use lsh.SshRead.{SshReadState, ssh_read_push, Input, read_error, read_end, read_bytes}
use lsh.TransportRead.{TransportReadState}
use lsh.TransportRead.Line.{
  find_byte, LineResult, line_io_error, line_too_long, line_unexpected_eof, line_eof, line_status,
  line_complete, line_at, find_line, read_line, line_or_read, transport_read_line,
}
use mathlib.Core.Path.{subst}
use lsh.TransportRead.Mac.{no-bytes}
use lsh.TransportRead.Line.Reads.{
  NoNewline, FoundAt, find_byte_lem, NoNewline-take, take-take, chop_return_lem, arrived, may_go_on,
  Undecided, LineRead, newline-decides,
}
use lsh.TransportRead.Line.Room.{ssh_read_some_lem}

-- A result that a read and the bytes behind it explain, in a buffer whose size is kept.
abbrev pub Explains : SshReadState → Option Input → List ℕ → LineResult × SshReadState → Type 0
Explains self read bytes x = LineRead read bytes x.0 x.1.input × (x.1.size ≡ self.size)

line_at_lem :
    (self : SshReadState) (read : Option Input) (o : Option ℕ)
    → may_go_on read ≡ true
    → FoundAt self.input o
    → Explains self read self.input (line_at self o)
unfolding line_at
line_at_lem self read none on free = elim (Bool-cases (ltb (length self.input) 255)) [
  | inl h ↦ rw h ((refl, (free, ground arith), on), refl)
  | inr h ↦ rw h ((refl, ground arith, NoNewline-take 255 self.input free), refl)
]
line_at_lem self read (some i) on (free, split, short) = elim (Bool-cases (ltb i 255)) [
  | inl h ↦ rw h (
    (
      take i self.input,
      free,
      ground (arith, length-take i self.input),
      chop_return_lem (take i self.input),
      split,
    ),
    refl,
  )
  | inr h ↦ rw h (
    (
      refl,
      ground arith,
      subst NoNewline (take-take 255 i self.input (ground arith))
          (NoNewline-take 255 (take i self.input) free),
    ),
    refl,
  )
]

find_line_lem :
    (self : SshReadState) (read : Option Input)
    → may_go_on read ≡ true
    → Explains self read self.input (find_line self)
unfolding find_line
find_line_lem self read on =
    line_at_lem self read (find_byte 10 self.input) on (find_byte_lem self.input)

-- A call reads just if it may and the bytes at hand do not decide it.
abbrev pub Which : List ℕ → Bool → Input → Option Input → Type 0
Which bytes may_read input read =
    ((read ≡ some input) × (may_read ≡ true) × Undecided bytes)
    ⊎ ((read ≡ none) × ((may_read ≡ false) ⊎ (¬ Undecided bytes)))

-- A call that explains its result by its read, and by the bytes that were there with what arrived.
abbrev pub ReadsLine : SshReadState → Bool → Input → Run (LineResult × SshReadState) → Type 0
ReadsLine self may_read input run =
    (r : LineResult) × (after : SshReadState) × (read : Option Input) × (run ≡ returns (r, after))
    × Which self.input may_read input read
    × Explains self read (self.input ++ arrived read) (r, after)

-- Nothing arrived.
Explains-none :
    (self : SshReadState) (read : Option Input) (x : LineResult × SshReadState)
    → Explains self read self.input x
    → Explains self read (self.input ++ []) x
Explains-none self read x h =
    subst (λ bytes. Explains self read bytes x) (sym (append-nil self.input)) h

read_line_lem :
    (self : SshReadState) (may_read : Bool) (input : Input)
    → self.size ≡ 35000
    → Undecided self.input
    → ReadsLine self may_read input (read_line self may_read input)
unfolding read_line
read_line_lem self false input size undecided = (
  line_status self.read_status,
  self,
  none,
  refl,
  inr (refl, inl refl),
  Explains-none self none (line_status self.read_status, self) ((refl, undecided, refl), refl),
)
read_line_lem self true (read_error w) size (free, short) =
    let (super, read, there, kept) = ssh_read_some_lem self (read_error w) size (omega arith) in
    let same = there ∙ append-nil self.input in
    elim (Bool-cases w) [
      | inl h ↦ (
        line_status ssh_read_push,
        super,
        some (read_error w),
        rw (read, h) refl,
        inl (refl, refl, (free, short)),
        Explains-none self (some (read_error w)) (line_status ssh_read_push, super)
            ((same, (free, short), h), kept),
      )
      | inr h ↦ (
        line_io_error,
        super,
        some (read_error w),
        rw (read, h) refl,
        inl (refl, refl, (free, short)),
        Explains-none self (some (read_error w)) (line_io_error, super)
            ((same, (free, short), ap {A = Bool} (λ b. some (read_error b)) h), kept),
      )
    ]
read_line_lem self true read_end size (free, short) =
    let (super, read, there, kept) = ssh_read_some_lem self read_end size (omega arith) in
    let same = there ∙ append-nil self.input in
    elim (Bool-cases (length super.input == 0)) [
      | inl h ↦
          let gone : length self.input ≡ 0 = ap {A = List ℕ} length (sym same) ∙ ground arith in
          (
            line_eof,
            super,
            some read_end,
            rw (read, h) refl,
            inl (refl, refl, (free, short)),
            Explains-none self (some read_end) (line_eof, super)
                ((same, no-bytes self.input gone, refl), kept),
          )
      | inr h ↦
          let some_left : 0 < length super.input = ground arith in
          let long = ap {A = List ℕ} length same in
          (
            line_unexpected_eof,
            super,
            some read_end,
            rw (read, h) refl,
            inl (refl, refl, (free, short)),
            Explains-none self (some read_end) (line_unexpected_eof, super)
                ((same, (free, short), omega arith, refl), kept),
          )
    ]
read_line_lem self true (read_bytes bytes readable) size (free, short) =
    let (super, read, there, kept) =
      ssh_read_some_lem self (read_bytes bytes readable) size (omega arith) in
    let (explained, kept_here) = find_line_lem super (some (read_bytes bytes readable)) refl in
    (
      (find_line super).0,
      (find_line super).1,
      some (read_bytes bytes readable),
      rw read refl,
      inl (refl, refl, (free, short)),
      (
        subst
            (λ xs.
              LineRead (some (read_bytes bytes readable)) xs (find_line super).0
                (find_line super).1.input)
            there explained,
        kept_here ∙ kept,
      ),
    )

ReadsLine-same :
    (self other : SshReadState) (may_read : Bool) (input : Input)
    (run : Run (LineResult × SshReadState))
    → self.input ≡ other.input
    → self.size ≡ other.size
    → ReadsLine self may_read input run
    → ReadsLine other may_read input run
ReadsLine-same self other may_read input run same kept
      (r, after, read, e, which, (explained, size)) =
    (
      r,
      after,
      read,
      e,
      subst (λ bytes. Which bytes may_read input read) same which,
      (
        subst (λ bytes. LineRead read (bytes ++ arrived read) r after.input) same explained,
        size ∙ kept,
      ),
    )

-- A result that was there without a read.
decided :
    (self : SshReadState) (x : LineResult × SshReadState) (may_read : Bool) (input : Input)
    → ¬ Undecided self.input
    → Explains self none self.input x
    → ReadsLine self may_read input (returns x)
decided self x may_read input d h =
    (x.0, x.1, none, refl, inr (refl, inr d), Explains-none self none x h)

line_or_read_lem :
    (self : SshReadState) (x : LineResult × SshReadState) (may_read : Bool) (input : Input)
    → self.size ≡ 35000
    → Explains self none self.input x
    → ReadsLine self may_read input (line_or_read x may_read input)
unfolding line_or_read
line_or_read_lem self (line_status s, after) may_read input size ((same, undecided, on), kept) =
    ReadsLine-same after self may_read input (read_line after may_read input) same kept
      (read_line_lem after may_read input (kept ∙ size) (subst Undecided (sym same) undecided))
line_or_read_lem self (line_too_long, after) may_read input size ((same, long, free), kept) =
    decided self (line_too_long, after) may_read input (λ u. omega arith) ((same, long, free), kept)
line_or_read_lem self (line_complete line, after) may_read input size
      ((text, free, short, cut, e), kept) =
    decided self (line_complete line, after) may_read input
      (λ u. newline-decides text after.input (subst Undecided e u))
      ((text, free, short, cut, e), kept)
line_or_read_lem self (line_io_error, after) may_read input size ((same, u, e), kept) =
    absurd (ground arith)
line_or_read_lem self (line_unexpected_eof, after) may_read input size ((same, u, l, e), kept) =
    absurd (ground arith)
line_or_read_lem self (line_eof, after) may_read input size ((same, l, e), kept) =
    absurd (ground arith)

-- With the buffer of 35000 bytes that make_transport_read_state makes, a call of transport_read_line
-- returns without a failed assertion. It reads just if it may, and the buffer has less than 255 bytes and no
-- newline; the bytes that it judges are those in the buffer, and behind them what arrived. A complete line
-- is the text before the first newline, of less than 255 bytes, without a carriage return at its end, and what
-- stands behind the newline is left. Otherwise all of the bytes are left: a line that is too long has 255
-- bytes or more without a newline; else there are less, without a newline, and the result is an end of the
-- input just if the read met it, with bytes or without, and an error just if the read failed and would
-- not block.
pub transport_read_line-ReadsLine :
    {M C D : Type 0} (self : TransportReadState M C D) (may_read : Bool) (input : Input)
    → self.super.size ≡ 35000
    → (r : LineResult) × (after : TransportReadState M C D) × (read : Option Input)
      × (transport_read_line self may_read input ≡ returns (r, after))
      × Which self.super.input may_read input read
      × LineRead read (self.super.input ++ arrived read) r after.super.input
      × (after.super.size ≡ 35000)
unfolding transport_read_line
transport_read_line-ReadsLine {M} {C} {D} self may_read input size =
    elim (Bool-cases (length self.super.input == 0)) [
      | inl h ↦
          let gone : self.super.input ≡ [] = no-bytes self.super.input (ground arith) in
          let (r, super, read, e, which, (explained, kept)) =
            read_line_lem (record self.super { start = 0 }) may_read input size
              (subst Undecided (sym gone) (tt, omega arith)) in
          (r, record self { super = super }, read, rw (h, e) refl, which, explained, kept ∙ size)
      | inr h ↦
          let (r, super, read, e, which, (explained, kept)) =
            line_or_read_lem self.super (find_line self.super) may_read input size
              (find_line_lem self.super none refl) in
          (r, record self { super = super }, read, rw (h, e) refl, which, explained, kept ∙ size)
    ]
