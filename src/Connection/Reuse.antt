-- ===== src/Connection/Reuse.antt =====
-- connection.c: numbers that have been deallocated are given out again.
use lsh.Prelude.{
  ℕ, ◌≤◌, ◌<◌, ◌≡◌, ◌∙◌, sym, true, false, ◌||◌, some, none, arith, leb, Bool-cases, inl, inr,
  returns, then_run, length,
}
use mathlib.Core.Bool.{true≢false}
use lsh.Connection.{
  AllocState, free, sent_open, received_open, is_same, Connection, ssh_connection_alloc_channel,
  ssh_connection_dealloc_channel,
}
use lsh.Connection.Slots.{in_use, slot_at-some}
use lsh.Connection.Valid.{
  IsValid, freed, freed-IsValid, dealloc-freed, taken-entry, in_use-set_slot,
}
use lsh.Connection.Alloc.{ssh_connection_alloc_channel_lem}

module _ {C : Type 0} where
  -- After a number in use is deallocated, the next allocation succeeds, even at the limit, and gives
  -- that number or a lower one.
  pub dealloc-alloc :
      (c : Connection C) (i : ℕ) (type : AllocState)
      → IsValid c
      → in_use c.slots i ≡ true
      → (is_same type sent_open || is_same type received_open) ≡ true
      → (j : ℕ) × (d : Connection C) × (then_run
            (ssh_connection_dealloc_channel c i)
            (λ c'. ssh_connection_alloc_channel c' type)
          ≡ returns (some j, d))
        × (j ≤ i)
  dealloc-alloc c i type v h t =
      let (s, e, used) = taken-entry c i h in
      let inside : i < length c.slots = slot_at-some c.slots i s e in
      let empty : in_use (freed c i).slots i ≡ false =
        ground
          (arith, in_use-set_slot c.slots i i (record { state = free; channel = none }) inside) in
      elim (ssh_connection_alloc_channel_lem (freed c i) type (freed-IsValid c i s v e used) t) [
        | inl (j, d, given, (_, below, _, _, _)) ↦
            (j, d, rw (dealloc-freed c i s v e used) given, lowest j empty below)
        | inr (_, full) ↦
            absurd (true≢false (sym (full i (omega (arith, inside, v.limit))) ∙ empty))
      ]
    where
      lowest :
          (j : ℕ)
          → in_use (freed c i).slots i ≡ false
          → ((k : ℕ) → k < j → in_use (freed c i).slots k ≡ true)
          → j ≤ i
      lowest j empty below = elim (Bool-cases (leb j i)) [
        | inl k ↦ ground arith
        | inr k ↦ absurd (true≢false (sym (below i (ground arith)) ∙ empty))
      ]
