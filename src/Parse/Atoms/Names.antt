-- ===== src/Parse/Atoms/Names.antt =====
-- A list of names read from, and as, a string with commas between them.
use lsh.Prelude.{
  ℕ, ◌+◌, ◌≤◌, ◌≡◌, refl, ◌∙◌, true, false, List, [], ◌∷◌, ◌++◌, none, some, arith, length, take,
  drop, leb, ◌==◌, Bool-cases, inl, inr, if◌then◌else◌, All, returns, length-append, take-append,
}
use lsh.Parse.{SimpleBuffer, failed, parsed, left, advance}
use lsh.Parse.Cursor.{View, left-View, take-View, Sees, Sees-head, Sees-tail, View-Sees}
use lsh.Parse.Atoms.{atom_length, atom_of, next_atom, parse_next_atom}

-- The names with a comma between each two.
abbrev pub join : List (List ℕ) → List ℕ
join [] = []
join (p ∷ []) = p
join (p ∷ q ∷ ps) = p ++ (b',' ∷ join (q ∷ ps))

-- What follows the first name: nothing, or a comma and the other names.
abbrev pub join_tail : List (List ℕ) → List ℕ
join_tail [] = []
join_tail (q ∷ ps) = b',' ∷ join (q ∷ ps)

abbrev pub NoComma : List ℕ → Type 0
NoComma = All (λ x. (x == b',') ≡ false)

-- The loop stops at the end of the name, or gives up on the 65th byte.
atom_length-name :
    (p : List ℕ) (ps : List (List ℕ)) (i : ℕ) (b : SimpleBuffer)
    → NoComma p
    → i ≤ 64
    → Sees b i (p ++ join_tail ps)
    → atom_length (length (p ++ join_tail ps)) i b
      ≡ (if leb (i + length p) 64 then some (i + length p) else none)
unfolding atom_length
atom_length-name [] [] i b n h look = ground arith
atom_length-name [] (q ∷ ps) i b n h look =
    rw (Sees-head b i b',' (join (q ∷ ps)) look) (ground arith)
atom_length-name (x ∷ p) ps i b n h look =
    rw (Sees-head b i x (p ++ join_tail ps) look, n.0)
      (ground
        (arith, atom_length-name p ps (i + 1) b n.1, Sees-tail b i x (p ++ join_tail ps) look))

atom_length-View :
    (b : SimpleBuffer) (p : List ℕ) (ps : List (List ℕ))
    → View b (p ++ join_tail ps)
    → NoComma p
    → atom_length (left b) 0 b ≡ (if leb (length p) 64 then some (length p) else none)
atom_length-View b p ps v n =
    rw (left-View v) (
      ground (arith, atom_length-name p ps 0 b n (omega arith) (View-Sees b (p ++ join_tail ps) v)))

-- One name: its atom, and the cursor behind the comma or one beyond the end.
pub parse_next_atom-name :
    (lookup_atom : List ℕ → ℕ) (b : SimpleBuffer) (p : List ℕ) (ps : List (List ℕ))
    → View b (p ++ join_tail ps)
    → NoComma p
    → parse_next_atom lookup_atom b
      ≡ returns (
          if leb (length p) 64
          then parsed (atom_of lookup_atom p) (advance (length p + 1) b)
          else failed b)
unfolding parse_next_atom next_atom
parse_next_atom-name lookup_atom b p ps v n = elim (Bool-cases (leb (length p) 64)) [
  | inl e ↦ rw (inside, measured, next_atom, e) (rw name refl)
  | inr e ↦ rw (inside, measured, next_atom, e) refl
]
  where
    inside : leb b.pos b.capacity ≡ true
    inside = let e = v.room in ground arith

    measured : atom_length (left b) 0 b ≡ (if leb (length p) 64 then some (length p) else none)
    measured = atom_length-View b p ps v n

    name : take (length p) (drop b.pos b.bytes) ≡ p
    name =
        take-View v (length p) (omega (arith, length-append p (join_tail ps)))
        ∙ take-append p (join_tail ps)
