-- ===== src/Parse/Atoms.antt =====
-- parse.c: parse_next_atom, parse_atoms and parse_atom_list, the comma-separated lists of names.
pub mod Names
pub mod Lists
pub mod Join
pub mod Whole
use lsh.Prelude.{
  ℕ, zero, suc, ◌+◌, ◌-◌, Bool, List, [], ◌∷◌, ◌++◌, Option, none, some, if◌then◌else◌, ltb, leb,
  ◌==◌, not, add32, get_or, take, drop, length, Run, aborted, returns,
}
use lsh.Parse.{SimpleBuffer, Parsed, failed, parsed, bind, left, here, advance, parse_sub_buffer}

-- The loop over `i`: the length of the name at the cursor, or `none` if it is longer than 64.
unfoldable pub atom_length : ℕ → ℕ → SimpleBuffer → Option ℕ
atom_length zero i b = some i
atom_length (suc rounds) i b =
    let more = atom_length rounds (i + 1) b in
    if here b i == b',' then some i else if i == 64 then none else more

-- An empty name is an unknown one.
abbrev pub atom_of : (List ℕ → ℕ) → List ℕ → ℕ
atom_of lookup_atom name = if length name == 0 then 0 else lookup_atom name

-- The position may move one beyond the capacity.
unfoldable pub next_atom : (List ℕ → ℕ) → SimpleBuffer → Parsed ℕ
unfolding atom_length
next_atom lookup_atom b = elim (atom_length (left b) 0 b) [
  | none ↦ failed b
  | some i ↦ parsed (atom_of lookup_atom (take i (drop b.pos b.bytes))) (advance (i + 1) b)
]

unfoldable pub parse_next_atom : (List ℕ → ℕ) → SimpleBuffer → Run (Parsed ℕ)
unfolding next_atom
parse_next_atom lookup_atom b =
    if leb b.pos b.capacity then returns (next_atom lookup_atom b) else aborted

-- The loop that counts commas, with `i` the next index; `none` is one name too many.
unfoldable pub count_atoms : ℕ → ℕ → ℕ → ℕ → List ℕ → Option ℕ
count_atoms zero i count limit bytes = some count
count_atoms (suc rounds) i count limit bytes =
    let comma = count_atoms rounds (i + 1) (count + 1) limit bytes in
    let other = count_atoms rounds (i + 1) count limit bytes in
    if get_or bytes i 0 == b',' then if leb limit count then none else comma else other

-- The loop that fills the list; `res` holds the atoms so far.
unfoldable pub read_atoms : (List ℕ → ℕ) → ℕ → List ℕ → SimpleBuffer → Run (Parsed (List ℕ))
unfolding parse_next_atom
read_atoms lookup_atom zero res b = returns (parsed res b)
read_atoms lookup_atom (suc count) res b = elim (parse_next_atom lookup_atom b) [
  | aborted ↦ aborted
  | returns (failed c) ↦ returns (failed c)
  | returns (parsed atom c) ↦ read_atoms lookup_atom count (res ++ (atom ∷ [])) c
]

unfoldable pub parse_atoms : (List ℕ → ℕ) → ℕ → SimpleBuffer → Run (Parsed (List ℕ))
unfolding count_atoms read_atoms
parse_atoms lookup_atom limit b =
    if limit == 0
    then aborted
    else if left b == 0
    then returns (parsed [] b)
    else elim (count_atoms (b.capacity - b.pos) b.pos 1 limit b.bytes) [
      | none ↦ returns (failed b)
      | some count ↦ read_atoms lookup_atom count [] b
    ]

-- What `parse_atoms` did on the sub-buffer, which is then forgotten; the outer cursor is at `c`.
abbrev pub in_sub_buffer : {A : Type 0} → SimpleBuffer → Run (Parsed A) → Run (Parsed A)
in_sub_buffer c aborted = aborted
in_sub_buffer c (returns (failed _)) = returns (failed c)
in_sub_buffer c (returns (parsed res _)) = returns (parsed res c)

-- The list is a string of its own; the outer cursor moves past that string.
unfoldable pub parse_atom_list : (List ℕ → ℕ) → ℕ → SimpleBuffer → Run (Parsed (List ℕ))
parse_atom_list lookup_atom limit b = elim (parse_sub_buffer b) [
  | failed c ↦ returns (failed c)
  | parsed sub c ↦ in_sub_buffer c (parse_atoms lookup_atom limit sub)
]
