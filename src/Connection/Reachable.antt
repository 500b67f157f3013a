-- ===== src/Connection/Reachable.antt =====
-- Every channel table that the calls of connection.c can make of a new one is valid.
use lsh.Prelude.{
  ℕ, ◌≡◌, refl, true, false, ◌||◌, Option, some, arith, Bool-cases, Option-cases, inl, inr, returns,
  aborted,
}
use mathlib.Core.Path.{subst}
use lsh.Connection.{
  AllocState, active, sent_open, received_open, is_free, is_some, is_same, Slot, Connection,
  slot_at, set_slot, init_ssh_connection, ssh_connection_alloc_channel,
  ssh_connection_dealloc_channel, ssh_connection_register_channel, ssh_connection_activate_channel,
  ssh_connection_pending_close, kill_if_empty, finish_channel,
}
use lsh.Connection.Slots.{in_use}
use lsh.Connection.Valid.{
  IsValid, init_ssh_connection-IsValid, replaced-IsValid, ssh_connection_dealloc_channel_lem,
}
use lsh.Connection.Alloc.{ssh_connection_alloc_channel_lem}

module _ {C : Type 0} where
  -- One call that returns.
  pub data Step (c c' : Connection C) : Type 0 where
    allocate :
        (type : AllocState) (i : Option ℕ)
        → ssh_connection_alloc_channel c type ≡ returns (i, c')
        → Step c c'
    deallocate : (i : ℕ) → ssh_connection_dealloc_channel c i ≡ returns c' → Step c c'
    finish : (i : ℕ) → finish_channel c i ≡ returns c' → Step c c'
    register :
        (i : ℕ) (channel : C) → ssh_connection_register_channel c i channel ≡ returns c' → Step c c'
    activate : (i : ℕ) → ssh_connection_activate_channel c i ≡ returns c' → Step c c'
    close : c' ≡ ssh_connection_pending_close c → Step c c'

  pub data Reachable : Connection C → Type 0 where
    start : Reachable init_ssh_connection
    step : (c c' : Connection C) → Reachable c → Step c c' → Reachable c'

  alloc-refused :
      (c : Connection C) (type : AllocState)
      → (is_same type sent_open || is_same type received_open) ≡ false
      → ssh_connection_alloc_channel c type ≡ aborted
  unfolding ssh_connection_alloc_channel
  alloc-refused c type t = rw t refl

  dealloc-refused :
      (c : Connection C) (i : ℕ)
      → in_use c.slots i ≡ false
      → ssh_connection_dealloc_channel c i ≡ aborted
  unfolding ssh_connection_dealloc_channel
  dealloc-refused c i h = ground arith

  allocate-IsValid :
      (c c' : Connection C) (type : AllocState) (i : Option ℕ)
      → IsValid c
      → ssh_connection_alloc_channel c type ≡ returns (i, c')
      → IsValid c'
  allocate-IsValid c c' type i v e =
      elim (Bool-cases (is_same type sent_open || is_same type received_open)) [
        | inl t ↦ elim (ssh_connection_alloc_channel_lem c type v t) [
          | inl (_, d, given, (_, _, valid, _, _)) ↦ subst IsValid (cc (given, e)) valid
          | inr (given, _) ↦ subst IsValid (cc (given, e)) v
        ]
        | inr t ↦ cc (alloc-refused c type t, e)
      ]

  deallocate-IsValid :
      (c c' : Connection C) (i : ℕ)
      → IsValid c
      → ssh_connection_dealloc_channel c i ≡ returns c'
      → IsValid c'
  deallocate-IsValid c c' i v e = elim (Bool-cases (in_use c.slots i)) [
    | inl h ↦
        let (d, given, valid, _, _, _) = ssh_connection_dealloc_channel_lem c i v h in
        subst IsValid (cc (given, e)) valid
    | inr h ↦ cc (dealloc-refused c i h, e)
  ]

  kill_if_empty-IsValid : (c : Connection C) → IsValid c → IsValid (kill_if_empty c)
  unfolding kill_if_empty
  kill_if_empty-IsValid c v = record {
    counted = v.counted;
    next = v.next;
    low = v.low;
    room = v.room;
    some_room = v.some_room;
    limit = v.limit;
    small = v.small;
    consistent = v.consistent;
  }

  finish-IsValid :
      (c c' : Connection C) (i : ℕ) → IsValid c → finish_channel c i ≡ returns c' → IsValid c'
  unfolding finish_channel
  finish-IsValid c c' i v e = elim (Bool-cases (in_use c.slots i)) [
    | inl h ↦
        let (d, given, valid, _, _, _) = ssh_connection_dealloc_channel_lem c i v h in
        let same : kill_if_empty d ≡ c' = cc (rw given at e) in
        subst IsValid same (kill_if_empty-IsValid d valid)
    | inr h ↦ cc (rw (dealloc-refused c i h) at e)
  ]

  register-IsValid :
      (c c' : Connection C) (i : ℕ) (channel : C)
      → IsValid c
      → ssh_connection_register_channel c i channel ≡ returns c'
      → IsValid c'
  unfolding ssh_connection_register_channel
  register-IsValid c c' i channel v e = elim (Option-cases (slot_at c.slots i)) [
    | inl h ↦ ground arith
    | inr (s, h) ↦
        let entry : Slot C = record { state = s.state; channel = some channel } in
        let same : record c { slots = set_slot c.slots i entry } ≡ c' = ground arith in
        let used : is_free s.state ≡ false = ground arith in
        subst IsValid same (replaced-IsValid c i s entry v h used used (ground arith))
  ]

  activate-IsValid :
      (c c' : Connection C) (i : ℕ)
      → IsValid c
      → ssh_connection_activate_channel c i ≡ returns c'
      → IsValid c'
  unfolding ssh_connection_activate_channel
  activate-IsValid c c' i v e = elim (Option-cases (slot_at c.slots i)) [
    | inl h ↦ ground arith
    | inr (s, h) ↦
        let entry : Slot C = record { state = active; channel = s.channel } in
        let same : record c { slots = set_slot c.slots i entry } ≡ c' = ground arith in
        let used : is_free s.state ≡ false = ground arith in
        let full : is_some s.channel ≡ true = ground arith in
        subst IsValid same (replaced-IsValid c i s entry v h used refl full)
  ]

  pending_close-IsValid : (c : Connection C) → IsValid c → IsValid (ssh_connection_pending_close c)
  unfolding ssh_connection_pending_close
  pending_close-IsValid c v = record {
    counted = v.counted;
    next = v.next;
    low = v.low;
    room = v.room;
    some_room = v.some_room;
    limit = v.limit;
    small = v.small;
    consistent = v.consistent;
  }

  Step-IsValid : (c c' : Connection C) → IsValid c → Step c c' → IsValid c'
  Step-IsValid c c' v (allocate type i e) = allocate-IsValid c c' type i v e
  Step-IsValid c c' v (deallocate i e) = deallocate-IsValid c c' i v e
  Step-IsValid c c' v (finish i e) = finish-IsValid c c' i v e
  Step-IsValid c c' v (register i channel e) = register-IsValid c c' i channel v e
  Step-IsValid c c' v (activate i e) = activate-IsValid c c' i v e
  Step-IsValid c c' v (close e) = rw e (pending_close-IsValid c v)

  -- The channel table is valid after any calls that return: the count is that of the numbers in use,
  -- the numbers below `next_channel` are in use, the entries fit in the arrays and the limit, a free
  -- number has no channel, and an active one has.
  pub Reachable-IsValid : (c : Connection C) → Reachable c → IsValid c
  Reachable-IsValid c start = init_ssh_connection-IsValid
  Reachable-IsValid c' (step c _ r s) = Step-IsValid c c' (Reachable-IsValid c r) s
