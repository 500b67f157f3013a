-- ===== src/Parse/Atoms/Whole.antt =====
-- parse_atom_list: a list of names as a length-prefixed string of a packet.
use lsh.Prelude.{
  ℕ, ◌<◌, ◌^◌, ◌≡◌, List, ◌∷◌, Option, none, some, arith, length, take, Run, aborted, returns,
  length-take, refl, ap,
}
use lsh.Parse.{
  SimpleBuffer, Parsed, failed, parsed, simple_buffer_init, parse_sub_buffer, read_uint32,
}
use lsh.Parse.Cursor.{View, Spec, Agrees, and_then, simple_buffer_init-View}
use lsh.Parse.Refine.{string, parse_sub_buffer-Refines}
use lsh.Parse.Atoms.{parse_atoms, parse_atom_list, in_sub_buffer}
use lsh.Parse.Atoms.Lists.{atoms_of, Outcome, parse_atoms_lem}

abbrev pub AgreesRun : {A : Type 0} → Run (Parsed A) → Option (A × List ℕ) → Type 0
AgreesRun aborted y = ⊥
AgreesRun (returns x) y = Agrees x y

-- The list of names at the front of the bytes.
abbrev pub atom_list : (List ℕ → ℕ) → ℕ → Spec (List ℕ)
atom_list lookup_atom limit =
    and_then string
      λ s r. elim (atoms_of lookup_atom limit s) [ none ↦ none | some atoms ↦ some (atoms, r) ]

-- A string that was read is no longer than what was left.
string-small : (r s t : List ℕ) → length r < 2 ^ 32 → string r ≡ some (s, t) → length s < 2 ^ 32
string-small (x0 ∷ x1 ∷ x2 ∷ x3 ∷ r) s t h e =
    ground (arith, length-take (read_uint32 x0 x1 x2 x3) r, ap length (pair e))
  where
    pair : string (x0 ∷ x1 ∷ x2 ∷ x3 ∷ r) ≡ some (s, t) → take (read_uint32 x0 x1 x2 x3) r ≡ s
    pair q = ground arith
string-small _ s t h e = cc

in_sub_buffer-Agrees :
    {A : Type 0} (x : Run (Parsed A)) (y : Option A) (c : SimpleBuffer) (t : List ℕ)
    → View c t
    → Outcome x y
    → AgreesRun (in_sub_buffer c x) (elim y [ none ↦ none | some a ↦ some (a, t) ])
in_sub_buffer-Agrees (returns (parsed a _)) (some d) c t v h = (h, v)
in_sub_buffer-Agrees (returns (failed _)) none c t v h = tt
in_sub_buffer-Agrees (returns (parsed a _)) none c t v h = absurd h
in_sub_buffer-Agrees (returns (failed _)) (some d) c t v h = absurd h
in_sub_buffer-Agrees aborted y c t v h = absurd h

-- On every packet `parse_atom_list` reads the string at its front and the names in that string, and
-- leaves the cursor behind the string; no assertion fails.
pub parse_atom_list-Refines :
    (lookup_atom : List ℕ → ℕ) (limit : ℕ) (b : SimpleBuffer) (r : List ℕ)
    → View b r
    → 0 < limit
    → AgreesRun (parse_atom_list lookup_atom limit b) (atom_list lookup_atom limit r)
unfolding parse_atom_list
parse_atom_list-Refines f limit b r v h =
    go (parse_sub_buffer b) (string r) refl (parse_sub_buffer-Refines b r v)
  where
    small : length r < 2 ^ 32
    small = let e = v.room in let k = v.small in omega arith

    go :
        (x : Parsed SimpleBuffer) (y : Option (List ℕ × List ℕ))
        → string r ≡ y
        → Agrees x
            (elim y [ none ↦ none | some (s, t) ↦ some (simple_buffer_init (length s) s, t) ])
        → AgreesRun
            (elim x [
              | failed c ↦ returns (failed c)
              | parsed sub c ↦ in_sub_buffer c (parse_atoms f limit sub)
            ])
            (elim y [
              | none ↦ none
              | some (s, t) ↦ elim (atoms_of f limit s) [
                | none ↦ none
                | some atoms ↦ some (atoms, t)
              ]
            ])
    go (failed c) none q a = tt
    go (failed c) (some y) q a = absurd a
    go (parsed sub c) none q a = absurd a
    go (parsed sub c) (some (s, t)) q (e, w) = rw e (
        in_sub_buffer-Agrees _ _ c t w (
          parse_atoms_lem f limit (simple_buffer_init (length s) s) s
            (simple_buffer_init-View s (string-small r s t small q)) h))
