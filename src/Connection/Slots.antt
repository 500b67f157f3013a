-- ===== src/Connection/Slots.antt =====
-- The entries of the channel table as functions of the number.
use lsh.Prelude.{
  ℕ, zero, suc, ◌+◌, ◌≤◌, ◌<◌, ◌≡◌, refl, ap, ◌∙◌, Bool, true, false, not, List, [], ◌∷◌, ◌++◌,
  Option, none, some, arith, if◌then◌else◌, ◌==◌, length, drop, Bool-cases, inl, inr,
}
use lsh.Connection.{AllocState, free, is_free, Slot, slot_at, set_slot, find_free}

module _ {C : Type 0} where
  -- The state of a number; one that is in no entry is free.
  abbrev pub state_of : List (Slot C) → ℕ → AllocState
  state_of l j = elim (slot_at l j) [ none ↦ free | some s ↦ s.state ]

  abbrev pub channel_of : List (Slot C) → ℕ → Option C
  channel_of l j = elim (slot_at l j) [ none ↦ none | some s ↦ s.channel ]

  abbrev pub in_use : List (Slot C) → ℕ → Bool
  in_use l j = not (is_free (state_of l j))

  abbrev pub count_used : List (Slot C) → ℕ
  count_used [] = 0
  count_used (s ∷ l) = (if is_free s.state then 0 else 1) + count_used l

  pub length-set_slot :
      (l : List (Slot C)) (i : ℕ) (s : Slot C) → length (set_slot l i s) ≡ length l
  length-set_slot [] i s = refl
  length-set_slot (x ∷ l) zero s = refl
  length-set_slot (x ∷ l) (suc i) s = ap suc (length-set_slot l i s)

  pub slot_at-set_slot :
      (l : List (Slot C)) (i j : ℕ) (s : Slot C)
      → i < length l
      → slot_at (set_slot l i s) j ≡ (if j == i then some s else slot_at l j)
  slot_at-set_slot [] i j s h = absurd (omega arith)
  slot_at-set_slot (x ∷ l) zero zero s h = refl
  slot_at-set_slot (x ∷ l) zero (suc j) s h = ground arith
  slot_at-set_slot (x ∷ l) (suc i) zero s h = ground arith
  slot_at-set_slot (x ∷ l) (suc i) (suc j) s h = ground (arith, slot_at-set_slot l i j s)

  pub slot_at-length : (l : List (Slot C)) (j : ℕ) → length l ≤ j → slot_at l j ≡ none
  slot_at-length [] j h = refl
  slot_at-length (x ∷ l) zero h = absurd (omega arith)
  slot_at-length (x ∷ l) (suc j) h = slot_at-length l j (omega arith)

  pub slot_at-some : (l : List (Slot C)) (j : ℕ) (s : Slot C) → slot_at l j ≡ some s → j < length l
  slot_at-some [] j s e = cc
  slot_at-some (x ∷ l) zero s e = omega arith
  slot_at-some (x ∷ l) (suc j) s e = omega (arith, slot_at-some l j s e)

  pub slot_at-below :
      (l : List (Slot C)) (j : ℕ) → j < length l → (s : Slot C) × (slot_at l j ≡ some s)
  slot_at-below [] j h = absurd (omega arith)
  slot_at-below (x ∷ l) zero h = (x, refl)
  slot_at-below (x ∷ l) (suc j) h = slot_at-below l j (omega arith)

  pub slot_at-append :
      (l : List (Slot C)) (s : Slot C) (j : ℕ)
      → slot_at (l ++ (s ∷ [])) j ≡ (if j == length l then some s else slot_at l j)
  slot_at-append [] s zero = refl
  slot_at-append [] s (suc j) = ground arith
  slot_at-append (x ∷ l) s zero = ground arith
  slot_at-append (x ∷ l) s (suc j) = ground (arith, slot_at-append l s j)

  pub slot_at-drop : (n j : ℕ) (l : List (Slot C)) → slot_at (drop n l) j ≡ slot_at l (n + j)
  slot_at-drop zero j l = ap {A = ℕ} (slot_at l) (omega arith)
  slot_at-drop (suc n) j [] = refl
  slot_at-drop (suc n) j (x ∷ l) =
      slot_at-drop n j l
      ∙ ap {A = ℕ} (slot_at (x ∷ l)) (let e : suc (n + j) ≡ suc n + j = omega arith in e)

  pub count_used-set_slot :
      (l : List (Slot C)) (i : ℕ) (s s' : Slot C)
      → slot_at l i ≡ some s
      → count_used (set_slot l i s') + (if is_free s.state then 0 else 1)
        ≡ count_used l + (if is_free s'.state then 0 else 1)
  count_used-set_slot [] i s s' e = cc
  count_used-set_slot (x ∷ l) zero s s' e = let q : x ≡ s = cc e in rw q (omega arith)
  count_used-set_slot (x ∷ l) (suc i) s s' e = omega (arith, count_used-set_slot l i s s' e)

  pub count_used-append :
      (l : List (Slot C)) (s : Slot C)
      → count_used (l ++ (s ∷ [])) ≡ count_used l + (if is_free s.state then 0 else 1)
  count_used-append [] s = omega arith
  count_used-append (x ∷ l) s = omega (arith, count_used-append l s)

  in_use-cons :
      (x : Slot C) (l : List (Slot C)) (d : ℕ)
      → is_free x.state ≡ false
      → ((j : ℕ) → j < d → in_use l j ≡ true)
      → (j : ℕ) → j < suc d
      → in_use (x ∷ l) j ≡ true
  in_use-cons x l d h before zero k = rw h refl
  in_use-cons x l d h before (suc j) k = before j (omega arith)

  pub find_free-some :
      (i k : ℕ) (s : Slot C) (l : List (Slot C))
      → find_free i l ≡ some (k, s)
      → (d : ℕ) × (k ≡ i + d)
        × (slot_at l d ≡ some s)
        × (is_free s.state ≡ true)
        × ((j : ℕ) → j < d → in_use l j ≡ true)
  unfolding find_free
  find_free-some i k s [] e = cc
  find_free-some i k s (x ∷ l) e = elim (Bool-cases (is_free x.state)) [
    | inl h ↦ (0, ground arith, ground arith, ground arith, λ j below. absurd (omega arith))
    | inr h ↦
        let (d, place, found, is, before) = find_free-some (suc i) k s l (rw h at e) in
        (suc d, omega arith, found, is, in_use-cons x l d h before)
  ]

  pub find_free-none :
      (i : ℕ) (l : List (Slot C))
      → find_free i l ≡ none
      → (j : ℕ) → j < length l
      → in_use l j ≡ true
  unfolding find_free
  find_free-none i [] e j h = absurd (omega arith)
  find_free-none i (x ∷ l) e zero h = ground arith
  find_free-none i (x ∷ l) e (suc j) h = find_free-none (suc i) l (ground arith) j (omega arith)
