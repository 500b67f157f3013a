-- ===== src/Keyexchange/Select/Choice.antt =====
-- src/keyexchange.c: which algorithm select_algorithm takes.
use mathlib.Core.List.{Memᴰ}
use lsh.Prelude.{
  ℕ, ◌≡◌, ◌≢◌, refl, true, List, [], ◌∷◌, ◌++◌, ◌==◌, Bool-cases, inl, inr, arith, All, ap,
}
use lsh.Keyexchange.Select.{int_list_member, select_algorithm}

pub int_list_member-Mem : (list : List ℕ) (a : ℕ) → int_list_member list a ≡ true → Memᴰ a list
unfolding int_list_member
int_list_member-Mem [] a h = cc
int_list_member-Mem (b ∷ list) a h = elim (Bool-cases (b == a)) [
  | inl e ↦ Memᴰ.head (ground arith)
  | inr e ↦ Memᴰ.tail (int_list_member-Mem list a (rw e at h))
]

pub Mem-int_list_member : (list : List ℕ) (a : ℕ) → Memᴰ a list → int_list_member list a ≡ true
unfolding int_list_member
Mem-int_list_member [] a m = elim m [ ]
Mem-int_list_member (b ∷ list) a (Memᴰ.head e) =
    let same : (b == a) ≡ true = ground arith in rw same refl
Mem-int_list_member (b ∷ list) a (Memᴰ.tail m) = rw (Mem-int_list_member list a m) (ground arith)

-- A known algorithm that the server has.
abbrev pub Shared : List ℕ → ℕ → Type 0
Shared server_list a = (a ≢ 0) × Memᴰ a server_list

-- The first algorithm of the client that the server has, or 0 if there is none.
pub data Choice (client_list server_list : List ℕ) (choice : ℕ) : Type 0 where
  none_shared :
      choice ≡ 0
      → All (λ a. ¬ Shared server_list a) client_list
      → Choice client_list server_list choice
  first_shared :
      (before after : List ℕ)
      → client_list ≡ before ++ (choice ∷ after)
      → All (λ a. ¬ Shared server_list a) before
      → Shared server_list choice
      → Choice client_list server_list choice

Choice-skip :
    (a : ℕ) (client_list server_list : List ℕ) (choice : ℕ)
    → ¬ Shared server_list a
    → Choice client_list server_list choice
    → Choice (a ∷ client_list) server_list choice
Choice-skip a c s r h (none_shared e hs) = none_shared e (h, hs)
Choice-skip a c s r h (first_shared before after e hs m) =
    first_shared (a ∷ before) after (ap (◌∷◌ a) e) (h, hs) m

-- On all lists select_algorithm takes the first algorithm of the client that is not 0 and is in the
-- server's list, and it is 0 just if there is none.
pub select_algorithm-Choice :
    (client_list server_list : List ℕ)
    → Choice client_list server_list (select_algorithm client_list server_list)
unfolding select_algorithm
select_algorithm-Choice [] s = none_shared refl tt
select_algorithm-Choice (a ∷ c) s = elim (Bool-cases (a == 0)) [
  | inl e ↦ rw e (
      Choice-skip a c s (select_algorithm c s) (λ h. h.0 (ground arith))
        (select_algorithm-Choice c s))
  | inr e ↦ elim (Bool-cases (int_list_member s a)) [
    | inl m ↦ rw (e, m) (first_shared [] c refl tt ((λ z. ground arith), int_list_member-Mem s a m))
    | inr m ↦
        rw (e, m)
          (Choice-skip a c s (select_algorithm c s)
            (λ h. let k = Mem-int_list_member s a (h.1) in cc) (select_algorithm-Choice c s))
  ]
]
