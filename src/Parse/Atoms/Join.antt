-- ===== src/Parse/Atoms/Join.antt =====
-- parse_atoms on names that were written with commas between them.
use lsh.Prelude.{
  ℕ, ◌<◌, ◌≤◌, ◌≡◌, refl, ap, ◌∙◌, true, List, [], ◌∷◌, ◌++◌, some, arith, length, leb, All,
}
use mathlib.Core.List.{map}
use lsh.Parse.Atoms.{atom_of}
use lsh.Parse.Atoms.Names.{join, NoComma}
use lsh.Parse.Atoms.Lists.{split, all_short, atoms_of}

-- A name that can stand in a list of names.
abbrev pub IsName : List ℕ → Type 0
IsName p = (0 < length p) × (length p ≤ 64) × NoComma p

split-name : (p : List ℕ) → NoComma p → split p ≡ p ∷ []
split-name [] n = refl
split-name (x ∷ p) n = rw (n.0, split-name p n.1) refl

split-comma : (p s : List ℕ) → NoComma p → split (p ++ (b',' ∷ s)) ≡ p ∷ split s
split-comma [] s n = refl
split-comma (x ∷ p) s n = rw (n.0, split-comma p s n.1) refl

split-join :
    (p : List ℕ) (ps : List (List ℕ)) → All NoComma (p ∷ ps) → split (join (p ∷ ps)) ≡ p ∷ ps
split-join p [] n = split-name p n.0
split-join p (q ∷ ps) n = split-comma p (join (q ∷ ps)) n.0 ∙ ap (◌∷◌ p) (split-join q ps n.1)

all_short-names : (ps : List (List ℕ)) → All IsName ps → all_short ps ≡ true
all_short-names [] h = refl
all_short-names (p ∷ ps) ((h, k, n), hs) =
    let e : leb (length p) 64 ≡ true = ground arith in rw (e) (all_short-names ps hs)

names-NoComma : (ps : List (List ℕ)) → All IsName ps → All NoComma ps
names-NoComma [] h = tt
names-NoComma (p ∷ ps) ((h, k, n), hs) = (n, names-NoComma ps hs)

atoms_of-cons :
    (lookup_atom : List ℕ → ℕ) (limit : ℕ) (s : List ℕ) (ps : List (List ℕ))
    → 0 < length s
    → split s ≡ ps
    → leb (length ps) limit ≡ true
    → all_short ps ≡ true
    → atoms_of lookup_atom limit s ≡ some (map (atom_of lookup_atom) ps)
atoms_of-cons f limit [] ps h e k l = absurd (omega arith)
atoms_of-cons f limit (x ∷ s) ps h e k l = rw (e, k, l) refl

join-long : (p : List ℕ) (ps : List (List ℕ)) → 0 < length p → 0 < length (join (p ∷ ps))
join-long [] ps h = absurd (omega arith)
join-long (x ∷ p) [] h = h
join-long (x ∷ p) (q ∷ ps) h = omega arith

-- Names joined with commas are read as their atoms.
pub atoms_of-join :
    (lookup_atom : List ℕ → ℕ) (limit : ℕ) (ps : List (List ℕ))
    → All IsName ps
    → length ps ≤ limit
    → atoms_of lookup_atom limit (join ps) ≡ some (map (atom_of lookup_atom) ps)
atoms_of-join f limit [] h k = refl
atoms_of-join f limit (p ∷ ps) h k =
    atoms_of-cons f limit (join (p ∷ ps)) (p ∷ ps) (join-long p ps (h.0).0)
      (split-join p ps (names-NoComma (p ∷ ps) h)) (ground arith) (all_short-names (p ∷ ps) h)
