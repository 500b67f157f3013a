-- ===== src/Parse/Atoms/Lists.antt =====
-- parse_atoms on any string: which lists are accepted, what is read, and that no assertion fails.
use lsh.Prelude.{
  ℕ, suc, ◌+◌, ◌-◌, ◌<◌, ◌≤◌, ◌≡◌, ◌≢◌, refl, sym, ap, ◌∙◌, Bool, true, false, List, [], ◌∷◌, ◌++◌,
  Option, none, some, arith, length, drop, get_or, leb, ◌==◌, Bool-cases, inl, inr, if◌then◌else◌,
  ◌&&◌, All, Run, returns, length-append, append_assoc, append-nil, drop-drop, drop-append,
}
use mathlib.Core.List.{map}
use lsh.Parse.{SimpleBuffer, Parsed, failed, parsed, left, advance}
use lsh.Parse.Cursor.{View, left-View, here-View, advance-View}
use lsh.Parse.Atoms.{atom_of, count_atoms, read_atoms, parse_atoms}
use lsh.Parse.Atoms.Names.{join, join_tail, NoComma, parse_next_atom-name}

-- The names of a string, cut at its commas.
abbrev pub cons_first : ℕ → List (List ℕ) → List (List ℕ)
cons_first x [] = (x ∷ []) ∷ []
cons_first x (p ∷ ps) = (x ∷ p) ∷ ps

abbrev pub split : List ℕ → List (List ℕ)
split [] = [] ∷ []
split (x ∷ r) = if x == b',' then [] ∷ split r else cons_first x (split r)

join-cons_first : (x : ℕ) (ps : List (List ℕ)) → join (cons_first x ps) ≡ x ∷ join ps
join-cons_first x [] = refl
join-cons_first x (p ∷ []) = refl
join-cons_first x (p ∷ q ∷ ps) = refl

cons_first-ne-nil : (x : ℕ) (ps : List (List ℕ)) → cons_first x ps ≢ []
cons_first-ne-nil x [] e = cc
cons_first-ne-nil x (p ∷ ps) e = cc

split-ne-nil : (r : List ℕ) → split r ≢ []
split-ne-nil [] = λ e. cc
split-ne-nil (x ∷ r) = elim (Bool-cases (x == b',')) [
  | inl e ↦ rw e (λ h. cc)
  | inr e ↦ rw e (cons_first-ne-nil x (split r))
]

join-comma : (ps : List (List ℕ)) → ps ≢ [] → join ([] ∷ ps) ≡ b',' ∷ join ps
join-comma [] h = absurd (h refl)
join-comma (p ∷ ps) h = refl

pub join-split : (r : List ℕ) → join (split r) ≡ r
join-split [] = refl
join-split (x ∷ r) = elim (Bool-cases (x == b',')) [
  | inl e ↦ rw e (join-comma (split r) (split-ne-nil r) ∙ ground (arith, join-split r))
  | inr e ↦ rw e (join-cons_first x (split r) ∙ ap (◌∷◌ x) (join-split r))
]

NoComma-cons_first :
    (x : ℕ) (ps : List (List ℕ))
    → (x == b',') ≡ false
    → All NoComma ps
    → All NoComma (cons_first x ps)
NoComma-cons_first x [] e h = ((e, tt), tt)
NoComma-cons_first x (p ∷ ps) e h = ((e, h.0), h.1)

pub split-NoComma : (r : List ℕ) → All NoComma (split r)
split-NoComma [] = (tt, tt)
split-NoComma (x ∷ r) = elim (Bool-cases (x == b',')) [
  | inl e ↦ rw e (tt, split-NoComma r)
  | inr e ↦ rw e (NoComma-cons_first x (split r) e (split-NoComma r))
]

abbrev pub all_short : List (List ℕ) → Bool
all_short [] = true
all_short (p ∷ ps) = leb (length p) 64 && all_short ps

-- A refusal or a value, with the cursor wherever it is left.
abbrev pub Outcome : {A : Type 0} → Run (Parsed A) → Option A → Type 0
Outcome (returns (parsed a c)) (some x) = a ≡ x
Outcome (returns (failed c)) none = Unit {0}
Outcome _ _ = ⊥

pub join-tail : (p : List ℕ) (ps : List (List ℕ)) → join (p ∷ ps) ≡ p ++ join_tail ps
join-tail p [] = sym (append-nil p)
join-tail p (q ∷ ps) = refl

drop-name : (p t : List ℕ) (x : ℕ) → drop (length p + 1) (p ++ (x ∷ t)) ≡ t
drop-name p t x = sym (drop-drop (length p) 1 (p ++ (x ∷ t))) ∙ ap (drop 1) (drop-append p (x ∷ t))

-- The loop that fills the list reads every name, or stops at the first that is too long.
read_atoms-names :
    (lookup_atom : List ℕ → ℕ) (p : List ℕ) (ps : List (List ℕ)) (res : List ℕ) (b : SimpleBuffer)
    → View b (p ++ join_tail ps)
    → NoComma p
    → All NoComma ps
    → Outcome
        (read_atoms lookup_atom (length (p ∷ ps)) res b)
        (if all_short (p ∷ ps) then some (res ++ map (atom_of lookup_atom) (p ∷ ps)) else none)
unfolding read_atoms
read_atoms-names f p [] res b v n ns = elim (Bool-cases (leb (length p) 64)) [
  | inl e ↦ rw (parse_next_atom-name f b p [] v n, read_atoms, e) refl
  | inr e ↦ rw (parse_next_atom-name f b p [] v n, read_atoms, e) tt
]
read_atoms-names f p (q ∷ qs) res b v n ns = elim (Bool-cases (leb (length p) 64)) [
  | inl e ↦
      rw (parse_next_atom-name f b p (q ∷ qs) v n, read_atoms, e)
        (rw (append_assoc res (atom_of f p ∷ []) (map (atom_of f) (q ∷ qs))) at (
          read_atoms-names f q qs (res ++ (atom_of f p ∷ [])) (advance (length p + 1) b) behind ns.0
            ns.1))
  | inr e ↦ rw (parse_next_atom-name f b p (q ∷ qs) v n, read_atoms, e) tt
]
  where
    behind : View (advance (length p + 1) b) (q ++ join_tail qs)
    behind =
        rw (drop-name p (join (q ∷ qs)) b',', join-tail q qs) at
          (advance-View v (length p + 1) (omega (arith, length-append p (b',' ∷ join (q ∷ qs)))))

abbrev commas : List ℕ → ℕ
commas [] = 0
commas (x ∷ s) = if x == b',' then suc (commas s) else commas s

-- The bytes `s` stand in the data from index `i` on.
abbrev Stands : List ℕ → ℕ → List ℕ → Type 0
Stands bytes i s = (j : ℕ) → j < length s → get_or bytes (i + j) 0 ≡ get_or s j 0

Stands-head :
    (bytes : List ℕ) (i x : ℕ) (s : List ℕ) → Stands bytes i (x ∷ s) → get_or bytes i 0 ≡ x
Stands-head bytes i x s look =
    ap {A = ℕ} (λ k. get_or bytes k 0) (let e : i ≡ i + 0 = omega arith in e) ∙ look 0 (omega arith)

Stands-tail :
    (bytes : List ℕ) (i x : ℕ) (s : List ℕ) → Stands bytes i (x ∷ s) → Stands bytes (i + 1) s
Stands-tail bytes i x s look j h =
    ap {A = ℕ} (λ k. get_or bytes k 0) (let e : i + 1 + j ≡ i + suc j = omega arith in e)
    ∙ look (suc j) (omega arith)

-- The counting loop gives up as soon as there are more names than the limit.
count_atoms-commas :
    (s : List ℕ) (i count limit : ℕ) (bytes : List ℕ)
    → Stands bytes i s
    → count ≤ limit
    → count_atoms (length s) i count limit bytes
      ≡ (if leb (count + commas s) limit then some (count + commas s) else none)
unfolding count_atoms
count_atoms-commas [] i count limit bytes look h = ground arith
count_atoms-commas (x ∷ s) i count limit bytes look h = rw (Stands-head bytes i x s look) (
    ground (
      arith,
      count_atoms-commas s (i + 1) (count + 1) limit bytes (Stands-tail bytes i x s look),
      count_atoms-commas s (i + 1) count limit bytes (Stands-tail bytes i x s look),
    ))

commas-split : (r : List ℕ) → length (split r) ≡ suc (commas r)
commas-split [] = refl
commas-split (x ∷ r) = elim (Bool-cases (x == b',')) [
  | inl e ↦ rw e (ap suc (commas-split r))
  | inr e ↦ rw e (length-cons_first x (split r) (split-ne-nil r) ∙ commas-split r)
]
  where
    length-cons_first :
        (y : ℕ) (ps : List (List ℕ)) → ps ≢ [] → length (cons_first y ps) ≡ length ps
    length-cons_first y [] h = absurd (h refl)
    length-cons_first y (p ∷ ps) h = refl

-- What `parse_atoms` makes of a string: nothing of the empty one; else one atom for each name, if
-- there are no more than `limit` of them and none is longer than 64.
abbrev pub atoms_of : (List ℕ → ℕ) → ℕ → List ℕ → Option (List ℕ)
atoms_of lookup_atom limit [] = some []
atoms_of lookup_atom limit (x ∷ r) =
    if leb (length (split (x ∷ r))) limit && all_short (split (x ∷ r))
    then some (map (atom_of lookup_atom) (split (x ∷ r)))
    else none

-- The names of a string from a cursor at that string.
read_atoms-split :
    (lookup_atom : List ℕ → ℕ) (b : SimpleBuffer) (r : List ℕ) (ps : List (List ℕ))
    → View b (join ps)
    → All NoComma ps
    → ps ≢ []
    → Outcome
        (read_atoms lookup_atom (length ps) [] b)
        (if all_short ps then some (map (atom_of lookup_atom) ps) else none)
read_atoms-split f b r [] v n h = absurd (h refl)
read_atoms-split f b r (p ∷ ps) v n h =
    read_atoms-names f p ps [] b (rw (join-tail p ps) at v) n.0 n.1

count_atoms-View :
    (b : SimpleBuffer) (s : List ℕ) (limit : ℕ)
    → View b s
    → 0 < limit
    → count_atoms (b.capacity - b.pos) b.pos 1 limit b.bytes
      ≡ (if leb (length (split s)) limit then some (length (split s)) else none)
count_atoms-View b s limit v h =
    rw (spread, commas-split s)
      (rw (let e : 1 + commas s ≡ suc (commas s) = omega arith in e) at
        (count_atoms-commas s b.pos 1 limit b.bytes (λ j k. here-View v j k) (omega arith)))
  where
    spread : b.capacity - b.pos ≡ length s
    spread = let e = v.room in omega arith

-- On every string and every positive limit, `parse_atoms` is `atoms_of`; no assertion fails.
pub parse_atoms_lem :
    (lookup_atom : List ℕ → ℕ) (limit : ℕ) (b : SimpleBuffer) (r : List ℕ)
    → View b r
    → 0 < limit
    → Outcome (parse_atoms lookup_atom limit b) (atoms_of lookup_atom limit r)
unfolding parse_atoms
parse_atoms_lem f limit b [] v h =
    let positive : (limit == 0) ≡ false = ground arith in rw (positive, left-View v) refl
parse_atoms_lem f limit b (x ∷ r) v h = elim (Bool-cases (leb (length (split (x ∷ r))) limit)) [
  | inl e ↦ rw (positive, some_left, counted, e, parse_atoms) read
  | inr e ↦ rw (positive, some_left, counted, e) tt
]
  where
    positive : (limit == 0) ≡ false
    positive = ground arith

    some_left : (left b == 0) ≡ false
    some_left = rw (left-View v) (ground arith)

    counted :
        count_atoms (b.capacity - b.pos) b.pos 1 limit b.bytes
        ≡ (if leb (length (split (x ∷ r))) limit then some (length (split (x ∷ r))) else none)
    counted = count_atoms-View b (x ∷ r) limit v h

    read :
        Outcome
          (read_atoms f (length (split (x ∷ r))) [] b)
          (if all_short (split (x ∷ r)) then some (map (atom_of f) (split (x ∷ r))) else none)
    read =
        read_atoms-split f b (x ∷ r) (split (x ∷ r)) (rw (join-split (x ∷ r)) v)
          (split-NoComma (x ∷ r)) (split-ne-nil (x ∷ r))
