-- ===== src/Connection/Alloc.antt =====
-- connection.c: ssh_connection_alloc_channel finds the lowest number that is free.
use lsh.Prelude.{
  ℕ, suc, ◌+◌, ◌-◌, ◌≤◌, ◌<◌, ◌≡◌, refl, ◌∙◌, true, false, ◌||◌, List, [], ◌∷◌, none, some, arith,
  if◌then◌else◌, ltb, ◌==◌, length, drop, Bool-cases, Option-cases, inl, inr, ◌⊎◌, returns, add32,
  length-append, length-drop,
}
use lsh.Connection.{
  AllocState, free, sent_open, received_open, is_free, is_same, Slot, Connection, slot_at, set_slot,
  find_free, take_number, extend, ssh_connection_alloc_channel,
}
use lsh.Connection.Slots.{
  state_of, channel_of, in_use, count_used, length-set_slot, slot_at-set_slot, slot_at-some,
  slot_at-length, slot_at-append, slot_at-drop, count_used-set_slot, count_used-append,
  find_free-some, find_free-none,
}
use lsh.Connection.Valid.{IsValid, consistent-set_slot, in_use-set_slot}

module _ {C : Type 0} where
  count_used-length : (l : List (Slot C)) → count_used l ≤ length l
  count_used-length [] = omega arith
  count_used-length (s ∷ l) = ground (arith, count_used-length l)

  -- The lowest free number is `i`, and it alone is different in the valid table `c'`.
  abbrev pub Allocates : Connection C → AllocState → ℕ → Connection C → Type 0
  Allocates c type i c' =
      (in_use c.slots i ≡ false)
      × ((j : ℕ) → j < i → in_use c.slots j ≡ true)
      × IsValid c'
      × ((j : ℕ) → state_of c'.slots j ≡ (if j == i then type else state_of c.slots j))
      × ((j : ℕ) → channel_of c'.slots j ≡ channel_of c.slots j)

  abbrev opening : AllocState → Slot C
  opening type = record { state = type; channel = none }

  -- A number among the entries.
  abbrev reused : Connection C → AllocState → ℕ → Connection C
  reused c type i = record c {
    slots = set_slot c.slots i (opening type);
    channel_count = add32 c.channel_count 1;
    next_channel = suc i;
  }

  reused-Allocates :
      (c : Connection C) (type : AllocState) (i : ℕ) (s : Slot C)
      → IsValid c
      → (is_same type sent_open || is_same type received_open) ≡ true
      → slot_at c.slots i ≡ some s
      → is_free s.state ≡ true
      → s.channel ≡ none
      → ((j : ℕ) → j < i → in_use c.slots j ≡ true)
      → Allocates c type i (reused c type i)
  reused-Allocates c type i s v t e h empty below = (
    ground arith,
    below,
    record {
      counted = ground (
        arith,
        v.counted,
        count_used-set_slot c.slots i s (opening type) e,
        count_used-length c.slots,
        v.limit,
        v.small,
      );
      next = omega (arith, length-set_slot c.slots i (opening type), inside);
      low = λ j k. ground (arith, below j, in_use-set_slot c.slots i j (opening type) inside);
      room = omega (arith, length-set_slot c.slots i (opening type), v.room);
      limit = omega (arith, length-set_slot c.slots i (opening type), v.limit);
      some_room = v.some_room;
      small = v.small;
      consistent = consistent-set_slot c.slots i (opening type) inside (ground arith) v.consistent;
    },
    (λ j. ground (arith, slot_at-set_slot c.slots i j (opening type) inside)),
    (λ j. ground (arith, slot_at-set_slot c.slots i j (opening type) inside)),
  )
    where
      inside : i < length c.slots
      inside = slot_at-some c.slots i s e

  -- All the entries are in use: `extended` has one more, which is free.
  extend-IsValid :
      (c : Connection C)
      → IsValid c
      → ((j : ℕ) → j < length c.slots → in_use c.slots j ≡ true)
      → length c.slots < c.max_channels
      → IsValid (record (extend c (length c.slots)) { next_channel = length c.slots })
  unfolding extend
  extend-IsValid c v full h = record {
    counted = omega (arith, v.counted, count_used-append c.slots (opening free));
    next = omega (arith, length-append c.slots (opening free ∷ []));
    low = λ j k. ground (arith, full j, slot_at-append c.slots (opening free) j);
    room = ground (arith, v.room, v.small, v.some_room, length-append c.slots (opening free ∷ []));
    some_room = ground (arith, v.room, v.some_room, v.small);
    limit = omega (arith, h, length-append c.slots (opening free ∷ []));
    small = v.small;
    consistent = λ j s e. ground (arith, slot_at-append c.slots (opening free) j, v.consistent j s);
  }

  abbrev extended : Connection C → Connection C
  extended c = record (extend c (length c.slots)) { next_channel = length c.slots }

  alloc-reused :
      (c : Connection C) (type : AllocState) (i : ℕ) (s : Slot C)
      → (is_same type sent_open || is_same type received_open) ≡ true
      → find_free c.next_channel (drop c.next_channel c.slots) ≡ some (i, s)
      → s.channel ≡ none
      → ssh_connection_alloc_channel c type ≡ returns (some i, reused c type i)
  unfolding ssh_connection_alloc_channel take_number
  alloc-reused c type i s t e empty = rw (t, e, empty) refl

  alloc-extended :
      (c : Connection C) (type : AllocState)
      → (is_same type sent_open || is_same type received_open) ≡ true
      → find_free c.next_channel (drop c.next_channel c.slots) ≡ none
      → (length c.slots == c.max_channels) ≡ false
      → ssh_connection_alloc_channel c type
        ≡ returns (some (length c.slots), reused (extended c) type (length c.slots))
  unfolding ssh_connection_alloc_channel take_number extend
  alloc-extended c type t e more = rw (t, e, more) refl

  alloc-none :
      (c : Connection C) (type : AllocState)
      → (is_same type sent_open || is_same type received_open) ≡ true
      → find_free c.next_channel (drop c.next_channel c.slots) ≡ none
      → (length c.slots == c.max_channels) ≡ true
      → ssh_connection_alloc_channel c type ≡ returns (none, c)
  unfolding ssh_connection_alloc_channel
  alloc-none c type t e full = rw (t, e, full) refl

  -- The new entry behind all the others.
  extended-Allocates :
      (c : Connection C) (type : AllocState)
      → IsValid c
      → (is_same type sent_open || is_same type received_open) ≡ true
      → ((j : ℕ) → j < length c.slots → in_use c.slots j ≡ true)
      → length c.slots < c.max_channels
      → Allocates c type (length c.slots) (reused (extended c) type (length c.slots))
  unfolding extend
  extended-Allocates c type v t full h =
      let (_, _, valid, states, channels) =
        reused-Allocates (extended c) type (length c.slots) (opening free)
          (extend-IsValid c v full h) t
          (ground (arith, slot_at-append c.slots (opening free) (length c.slots))) refl refl
          (λ j k. ground (arith, full j k, slot_at-append c.slots (opening free) j)) in
      (
        ground (arith, slot_at-length c.slots (length c.slots)),
        full,
        valid,
        (λ j.
            states j
            ∙ ground (arith, slot_at-append c.slots (opening free) j, slot_at-length c.slots j)),
        (λ j.
            channels j
            ∙ ground (arith, slot_at-append c.slots (opening free) j, slot_at-length c.slots j)),
      )

  -- The numbers that the search of alloc passes over.
  searched :
      (c : Connection C) (d j : ℕ)
      → IsValid c
      → ((k : ℕ) → k < d → in_use (drop c.next_channel c.slots) k ≡ true)
      → j < c.next_channel + d
      → in_use c.slots j ≡ true
  searched c d j v h k = elim (Bool-cases (ltb j c.next_channel)) [
    | inl e ↦ v.low j (ground arith)
    | inr e ↦ ground (
      arith,
      slot_at-drop c.next_channel (j - c.next_channel) c.slots,
      h (j - c.next_channel) (ground arith),
    )
  ]

  -- Of a valid table a number is allocated without a failed assertion, the lowest one that is free,
  -- or none if all the numbers below the limit are in use. Nothing else changes, and the table stays
  -- valid: the arrays have room for all their entries.
  pub ssh_connection_alloc_channel_lem :
      (c : Connection C) (type : AllocState)
      → IsValid c
      → (is_same type sent_open || is_same type received_open) ≡ true
      → ((i : ℕ) × (c' : Connection C) × (ssh_connection_alloc_channel c type
            ≡ returns (some i, c'))
          × Allocates c type i c')
        ⊎ ((ssh_connection_alloc_channel c type ≡ returns (none, c))
            × ((j : ℕ) → j < c.max_channels → in_use c.slots j ≡ true))
  ssh_connection_alloc_channel_lem c type v t =
      elim (Option-cases (find_free c.next_channel (drop c.next_channel c.slots))) [
        | inl e ↦ elim (Bool-cases (length c.slots == c.max_channels)) [
          | inl full ↦ inr (alloc-none c type t e full, λ j k. all_used e j (ground arith))
          | inr more ↦ inl (
            length c.slots,
            reused (extended c) type (length c.slots),
            alloc-extended c type t e more,
            extended-Allocates c type v t (all_used e) (ground (arith, v.limit)),
          )
        ]
        | inr ((i, s), e) ↦
            let (d, place, at, is, before) =
              find_free-some c.next_channel i s (drop c.next_channel c.slots) e in
            let at' : slot_at c.slots i ≡ some s =
              ground (arith, slot_at-drop c.next_channel d c.slots, place, at) in
            let empty : s.channel ≡ none = ground (arith, v.consistent i s at') in
            inl (
              i,
              reused c type i,
              alloc-reused c type i s t e empty,
              reused-Allocates c type i s v t at' is empty
                  λ j k. searched c d j v before (omega (arith, place)),
            )
      ]
    where
      all_used :
          find_free c.next_channel (drop c.next_channel c.slots) ≡ none
          → (j : ℕ) → j < length c.slots
          → in_use c.slots j ≡ true
      all_used e j k =
          searched c (length c.slots - c.next_channel) j v
            (λ m below.
              find_free-none c.next_channel (drop c.next_channel c.slots) e m
                (omega (arith, length-drop c.next_channel c.slots)))
            (omega (arith, v.next))
