-- ===== src/TransportRead/Line/Reads.antt =====
-- src/transport_read.c: what transport_read_line finds in the bytes that it has.
use lsh.Prelude.{
  ℕ, zero, suc, ◌-◌, ◌≤◌, ◌<◌, ◌≡◌, refl, sym, ap, ◌∙◌, Bool, true, false, List, [], ◌∷◌, ◌++◌,
  if◌then◌else◌, ◌==◌, ltb, length, take, drop, get_or, All, Option, none, some, arith, Bool-cases,
  inl, inr,
}
use lsh.SshRead.{Input, read_error, read_end, read_bytes}
use lsh.TransportRead.Line.{
  find_byte, LineResult, line_io_error, line_too_long, line_unexpected_eof, line_eof, line_status,
  line_complete, chop_return,
}

abbrev pub NoNewline : List ℕ → Type 0
NoNewline bytes = All (λ x. (x == 10) ≡ false) bytes

-- A carriage return at the end is left out.
abbrev pub without_return : List ℕ → List ℕ
without_return [] = []
without_return (x ∷ []) = if x == 13 then [] else x ∷ []
without_return (x ∷ y ∷ ys) = x ∷ without_return (y ∷ ys)

abbrev pub FoundAt : List ℕ → Option ℕ → Type 0
FoundAt bytes none = NoNewline bytes
FoundAt bytes (some i) =
    NoNewline (take i bytes)
    × (bytes ≡ take i bytes ++ (10 ∷ drop (suc i) bytes))
    × (i < length bytes)

found-cons :
    (x : ℕ) (xs : List ℕ) (o : Option ℕ)
    → (x == 10) ≡ false
    → FoundAt xs o
    → FoundAt (x ∷ xs) (elim o [ none ↦ none | some i ↦ some (suc i) ])
found-cons x xs none e h = (e, h)
found-cons x xs (some i) e (free, split, short) =
    ((e, free), ap {A = List ℕ} (◌∷◌ x) split, omega arith)

pub find_byte_lem : (bytes : List ℕ) → FoundAt bytes (find_byte 10 bytes)
unfolding find_byte
find_byte_lem [] = tt
find_byte_lem (x ∷ xs) = elim (Bool-cases (x == 10)) [
  | inl e ↦ rw e (tt, ap {A = ℕ} (λ c. c ∷ xs) (ground arith), omega arith)
  | inr e ↦ rw e (found-cons x xs (find_byte 10 xs) e (find_byte_lem xs))
]

pub NoNewline-take : (k : ℕ) (bytes : List ℕ) → NoNewline bytes → NoNewline (take k bytes)
NoNewline-take zero bytes h = tt
NoNewline-take (suc k) [] h = tt
NoNewline-take (suc k) (x ∷ xs) (e, h) = (e, NoNewline-take k xs h)

pub take-take : (k i : ℕ) (bytes : List ℕ) → k ≤ i → take k (take i bytes) ≡ take k bytes
take-take zero i bytes h = refl
take-take (suc k) zero bytes h = absurd (omega arith)
take-take (suc k) (suc i) [] h = refl
take-take (suc k) (suc i) (x ∷ xs) h = ap {A = List ℕ} (◌∷◌ x) (take-take k i xs (omega arith))

chop_return-cons :
    (x : ℕ) (xs : List ℕ)
    → chop_return (x ∷ xs)
      ≡ take (suc (length xs) - (if get_or (x ∷ xs) (length xs) 0 == 13 then 1 else 0)) (x ∷ xs)
unfolding chop_return
chop_return-cons x xs =
    let pos : ltb 0 (suc (length xs)) ≡ true = ground arith in
    let pred : suc (length xs) - 1 ≡ length xs = omega arith in rw (pos, pred) refl

one_less :
    (k : ℕ) (b : Bool) → suc (suc k) - (if b then 1 else 0) ≡ suc (suc k - (if b then 1 else 0))
one_less k true = omega arith
one_less k false = omega arith

pub chop_return_lem : (text : List ℕ) → chop_return text ≡ without_return text
unfolding chop_return
chop_return_lem [] = refl
chop_return_lem (x ∷ []) = elim (Bool-cases (x == 13)) [ inl e ↦ rw e refl | inr e ↦ rw e refl ]
chop_return_lem (x ∷ y ∷ ys) =
    chop_return-cons x (y ∷ ys)
    ∙ ap {A = ℕ} (λ n. take n (x ∷ y ∷ ys))
        (one_less (length ys) (get_or (y ∷ ys) (length ys) 0 == 13))
    ∙ ap {A = List ℕ} (◌∷◌ x) (sym (chop_return-cons y ys) ∙ chop_return_lem (y ∷ ys))

-- What a read gives, if there was one.
abbrev pub arrived : Option Input → List ℕ
arrived (some (read_bytes bytes readable)) = bytes
arrived _ = []

-- Neither the end of the input nor an error, other than that a read would block.
abbrev pub may_go_on : Option Input → Bool
may_go_on (some (read_error would_block)) = would_block
may_go_on (some read_end) = false
may_go_on _ = true

-- Bytes in which there is neither a line nor too much for one.
abbrev pub Undecided : List ℕ → Type 0
Undecided bytes = NoNewline bytes × (length bytes < 255)

-- What a result says of the read, of the bytes that are there then, and of those that are left.
abbrev pub LineRead : Option Input → List ℕ → LineResult → List ℕ → Type 0
LineRead read bytes (line_complete line) after =
    (text : List ℕ) × NoNewline text
    × (length text < 255)
    × (line ≡ without_return text)
    × (bytes ≡ text ++ (10 ∷ after))
LineRead read bytes (line_status s) after =
    (after ≡ bytes) × Undecided bytes × (may_go_on read ≡ true)
LineRead read bytes line_too_long after =
    (after ≡ bytes) × (255 ≤ length bytes) × NoNewline (take 255 bytes)
LineRead read bytes line_eof after = (after ≡ bytes) × (bytes ≡ []) × (read ≡ some read_end)
LineRead read bytes line_unexpected_eof after =
    (after ≡ bytes) × Undecided bytes × (0 < length bytes) × (read ≡ some read_end)
LineRead read bytes line_io_error after =
    (after ≡ bytes) × Undecided bytes × (read ≡ some (read_error false))

-- Where there is a line, the bytes are not undecided.
pub newline-decides : (text after : List ℕ) → ¬ Undecided (text ++ (10 ∷ after))
newline-decides [] after ((e, h), short) = absurd (ground arith)
newline-decides (x ∷ text) after ((e, h), short) = newline-decides text after (h, omega arith)
