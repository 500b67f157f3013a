-- ===== src/Connection/Valid.antt =====
-- What holds of a channel table between the calls of connection.c, and the operations other than the
-- allocation of a number.
use lsh.Prelude.{
  ℕ, ◌-◌, ◌≤◌, ◌<◌, ◌≡◌, refl, Bool, true, false, not, List, none, some, arith, if◌then◌else◌, ltb,
  ◌==◌, length, Bool-cases, Option-cases, inl, inr, returns, ◌^◌,
}
use lsh.Connection.{
  free, active, is_free, is_some, Slot, Connection, slot_at, set_slot, init_ssh_connection,
  ssh_connection_dealloc_channel,
}
use lsh.Connection.Slots.{
  state_of, channel_of, in_use, count_used, length-set_slot, slot_at-set_slot, slot_at-some,
  count_used-set_slot,
}

-- A free number has no channel, and an active one has.
abbrev pub is_consistent : {C : Type 0} → Slot C → Bool
is_consistent s = elim s.state [
  | free ↦ not (is_some s.channel)
  | active ↦ is_some s.channel
  | _ ↦ true
]

pub record IsValid {C : Type 0} (c : Connection C) : Type 0 where
  pub counted : c.channel_count ≡ count_used c.slots
  pub next : c.next_channel ≤ length c.slots
  pub low : (j : ℕ) → j < c.next_channel → in_use c.slots j ≡ true
  pub room : length c.slots ≤ c.allocated_channels
  pub some_room : 0 < c.allocated_channels
  pub limit : length c.slots ≤ c.max_channels
  pub small : c.max_channels < 2 ^ 31
  pub consistent : (j : ℕ) (s : Slot C) → slot_at c.slots j ≡ some s → is_consistent s ≡ true

module _ {C : Type 0} where
  pub init_ssh_connection-IsValid : IsValid {C = C} init_ssh_connection
  unfolding init_ssh_connection
  init_ssh_connection-IsValid = record {
    counted = refl;
    next = omega arith;
    low = λ j h. absurd (omega arith);
    room = omega arith;
    some_room = omega arith;
    limit = omega arith;
    small = omega arith;
    consistent = λ j s e. cc;
  }

  pub consistent-set_slot :
      (l : List (Slot C)) (i : ℕ) (s : Slot C)
      → i < length l
      → is_consistent s ≡ true
      → ((j : ℕ) (t : Slot C) → slot_at l j ≡ some t → is_consistent t ≡ true)
      → (j : ℕ) (t : Slot C) → slot_at (set_slot l i s) j ≡ some t
      → is_consistent t ≡ true
  consistent-set_slot l i s h good all j t e = elim (Bool-cases (j == i)) [
    | inl same ↦ let q : s ≡ t = ground (arith, slot_at-set_slot l i j s h) in rw (← q) good
    | inr other ↦ all j t (ground (arith, slot_at-set_slot l i j s h))
  ]

  pub in_use-set_slot :
      (l : List (Slot C)) (i j : ℕ) (s : Slot C)
      → i < length l
      → in_use (set_slot l i s) j ≡ (if j == i then not (is_free s.state) else in_use l j)
  in_use-set_slot l i j s h = ground (arith, slot_at-set_slot l i j s h)

  abbrev pub freed : Connection C → ℕ → Connection C
  freed c i = record c {
    slots = set_slot c.slots i (record { state = free; channel = none });
    channel_count = c.channel_count - 1;
    next_channel = if ltb i c.next_channel then i else c.next_channel;
  }

  pub freed-IsValid :
      (c : Connection C) (i : ℕ) (s : Slot C)
      → IsValid c
      → slot_at c.slots i ≡ some s
      → is_free s.state ≡ false
      → IsValid (freed c i)
  freed-IsValid c i s v e h = record {
    counted = ground (
      arith,
      count_used-set_slot c.slots i s (record { state = free; channel = none }) e,
      v.counted,
    );
    next = ground (arith, same, inside, v.next);
    low = λ j below. ground (
      arith,
      v.low j,
      in_use-set_slot c.slots i j (record { state = free; channel = none }) inside,
    );
    room = omega (arith, same, v.room);
    limit = omega (arith, same, v.limit);
    some_room = v.some_room;
    small = v.small;
    consistent =
        consistent-set_slot c.slots i (record { state = free; channel = none }) inside refl
          v.consistent;
  }
    where
      inside : i < length c.slots
      inside = slot_at-some c.slots i s e

      same : length (set_slot c.slots i (record { state = free; channel = none })) ≡ length c.slots
      same = length-set_slot c.slots i (record { state = free; channel = none })

  pub dealloc-freed :
      (c : Connection C) (i : ℕ) (s : Slot C)
      → IsValid c
      → slot_at c.slots i ≡ some s
      → is_free s.state ≡ false
      → ssh_connection_dealloc_channel c i ≡ returns (freed c i)
  unfolding ssh_connection_dealloc_channel
  dealloc-freed c i s v e h = ground (
    arith,
    v.counted,
    count_used-set_slot c.slots i s (record { state = free; channel = none }) e,
  )

  -- An entry that is in use is given another state or channel, and stays in use.
  pub replaced-IsValid :
      (c : Connection C) (i : ℕ) (s s' : Slot C)
      → IsValid c
      → slot_at c.slots i ≡ some s
      → is_free s.state ≡ false
      → is_free s'.state ≡ false
      → is_consistent s' ≡ true
      → IsValid (record c { slots = set_slot c.slots i s' })
  replaced-IsValid c i s s' v e h h' good = record {
    counted = ground (arith, count_used-set_slot c.slots i s s' e, v.counted);
    next = omega (arith, length-set_slot c.slots i s', v.next);
    low = λ j below.
        ground (arith, v.low j below, in_use-set_slot c.slots i j s' (slot_at-some c.slots i s e));
    room = omega (arith, length-set_slot c.slots i s', v.room);
    limit = omega (arith, length-set_slot c.slots i s', v.limit);
    some_room = v.some_room;
    small = v.small;
    consistent = consistent-set_slot c.slots i s' (slot_at-some c.slots i s e) good v.consistent;
  }

  pub taken-entry :
      (c : Connection C) (i : ℕ)
      → in_use c.slots i ≡ true
      → (s : Slot C) × (slot_at c.slots i ≡ some s) × (is_free s.state ≡ false)
  taken-entry c i h = elim (Option-cases (slot_at c.slots i)) [
    | inl e ↦ ground (arith)
    | inr (s, e) ↦ (s, e, ground arith)
  ]

  -- A number in use is deallocated without a failed assertion: it alone is free then, with no
  -- channel, the table stays valid, and the search for the next number starts at or below it.
  pub ssh_connection_dealloc_channel_lem :
      (c : Connection C) (i : ℕ)
      → IsValid c
      → in_use c.slots i ≡ true
      → (c' : Connection C) × (ssh_connection_dealloc_channel c i ≡ returns c')
        × IsValid c'
        × ((j : ℕ) → state_of c'.slots j ≡ (if j == i then free else state_of c.slots j))
        × ((j : ℕ) → channel_of c'.slots j ≡ (if j == i then none else channel_of c.slots j))
        × (c'.next_channel ≤ i)
  ssh_connection_dealloc_channel_lem c i v h =
      let (s, e, used) = taken-entry c i h in
      let inside : i < length c.slots = slot_at-some c.slots i s e in
      let empty : Slot C = record { state = free; channel = none } in
      (
        freed c i,
        dealloc-freed c i s v e used,
        freed-IsValid c i s v e used,
        (λ j. ground (arith, slot_at-set_slot c.slots i j empty inside)),
        (λ j. ground (arith, slot_at-set_slot c.slots i j empty inside)),
        ground arith,
      )
