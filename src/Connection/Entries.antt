-- ===== src/Connection/Entries.antt =====
-- connection.c: the life of a number that is allocated, and the channels that are found by number.
use lsh.Prelude.{
  ℕ, suc, ◌<◌, ◌≡◌, refl, true, false, List, [], ◌∷◌, ◌++◌, none, some, arith, if◌then◌else◌, ◌==◌,
  length, Option-cases, inl, inr, returns, then_run,
}
use lsh.Connection.{
  active, is_free, is_same, Slot, Connection, slot_at, set_slot, ssh_connection_register_channel,
  ssh_connection_activate_channel, ssh_connection_lookup_channel, ssh_connection_foreach,
}
use lsh.Connection.Slots.{state_of, channel_of, in_use, slot_at-set_slot, slot_at-some}
use lsh.Connection.Valid.{IsValid, is_consistent, replaced-IsValid, taken-entry}

module _ {C : Type 0} where
  abbrev with_slot : Connection C → ℕ → Slot C → Connection C
  with_slot c i s = record c { slots = set_slot c.slots i s }

  register-with_slot :
      (c : Connection C) (i : ℕ) (channel : C) (s : Slot C)
      → slot_at c.slots i ≡ some s
      → is_free s.state ≡ false
      → s.channel ≡ none
      → ssh_connection_register_channel c i channel
        ≡ returns (with_slot c i (record { state = s.state; channel = some channel }))
  unfolding ssh_connection_register_channel
  register-with_slot c i channel s e used empty = ground arith

  activate-with_slot :
      (c : Connection C) (i : ℕ) (channel : C) (s : Slot C)
      → slot_at c.slots i ≡ some s
      → is_free s.state ≡ false
      → s.channel ≡ some channel
      → ssh_connection_activate_channel c i
        ≡ returns (with_slot c i (record { state = active; channel = some channel }))
  unfolding ssh_connection_activate_channel
  activate-with_slot c i channel s e used full = ground arith

  -- A channel is registered under a number that is reserved, and then activated: no assertion fails,
  -- the number is active with that channel, no other number changes, and the table stays valid.
  pub register-activate :
      (c : Connection C) (i : ℕ) (channel : C)
      → IsValid c
      → in_use c.slots i ≡ true
      → channel_of c.slots i ≡ none
      → (c' : Connection C) × (then_run
            (ssh_connection_register_channel c i channel)
            (λ d. ssh_connection_activate_channel d i)
          ≡ returns c')
        × IsValid c'
        × ((j : ℕ) → state_of c'.slots j ≡ (if j == i then active else state_of c.slots j))
        × ((j : ℕ)
            → channel_of c'.slots j ≡ (if j == i then some channel else channel_of c.slots j))
  register-activate c i channel v h empty =
      let (s, e, used) = taken-entry c i h in
      let inside : i < length c.slots = slot_at-some c.slots i s e in
      let opening : Slot C = record { state = s.state; channel = some channel } in
      let opened : Slot C = record { state = active; channel = some channel } in
      let d : Connection C = with_slot c i opening in
      let at : slot_at d.slots i ≡ some opening =
        ground (arith, slot_at-set_slot c.slots i i opening inside) in
      let inside' : i < length d.slots = slot_at-some d.slots i opening at in
      (
        with_slot d i opened,
        rw (register-with_slot c i channel s e used (ground arith))
            (activate-with_slot d i channel opening at used refl),
        replaced-IsValid d i opening opened
            (replaced-IsValid c i s opening v e used used (ground arith)) at used refl refl,
        (λ j. ground (
          arith,
          slot_at-set_slot c.slots i j opening inside,
          slot_at-set_slot d.slots i j opened inside',
        )),
        (λ j. ground (
          arith,
          slot_at-set_slot c.slots i j opening inside,
          slot_at-set_slot d.slots i j opened inside',
        )),
      )

  -- The lookup of an active channel by number never fails an assertion: it finds the channel of the
  -- number if that is active, and nothing for any other number.
  pub lookup-active :
      (c : Connection C) (i : ℕ)
      → IsValid c
      → ssh_connection_lookup_channel c i active
        ≡ returns (if is_same (state_of c.slots i) active then channel_of c.slots i else none)
  unfolding ssh_connection_lookup_channel
  lookup-active c i v = elim (Option-cases (slot_at c.slots i)) [
    | inl e ↦ ground arith
    | inr (s, e) ↦ ground (arith, v.consistent i s e)
  ]

  -- The active channels of a list of entries, in order.
  abbrev pub active_channels : List (Slot C) → List C
  active_channels [] = []
  active_channels (s ∷ l) =
      (if is_same s.state active
        then elim s.channel [ none ↦ [] | some channel ↦ channel ∷ [] ]
        else [])
      ++ active_channels l

  foreach-consistent :
      (l : List (Slot C))
      → ((j : ℕ) (s : Slot C) → slot_at l j ≡ some s → is_consistent s ≡ true)
      → ssh_connection_foreach l ≡ returns (active_channels l)
  unfolding ssh_connection_foreach
  foreach-consistent [] h = refl
  foreach-consistent (s ∷ l) h = ground (arith, foreach-consistent l (λ j. h (suc j)), h 0 s refl)

  -- The walk over a valid table visits the channels of its active numbers, in order, and no assertion
  -- fails.
  pub foreach-active :
      (c : Connection C)
      → IsValid c
      → ssh_connection_foreach c.slots ≡ returns (active_channels c.slots)
  foreach-active c v = foreach-consistent c.slots v.consistent
