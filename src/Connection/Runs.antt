-- ===== src/Connection/Runs.antt =====
-- connection.c on a table of three entries, with numbers for the channels.
use lsh.Prelude.{
  ℕ, zero, suc, ◌≤◌, ◌<◌, ◌≡◌, refl, true, false, [], ◌∷◌, none, some, arith, if◌then◌else◌, ◌==◌,
  ◌⊎◌, returns, then_run,
}
use lsh.Connection.{
  free, active, sent_open, received_open, Slot, Connection, slot_at, init_ssh_connection,
  ssh_connection_alloc_channel, ssh_connection_dealloc_channel, ssh_connection_register_channel,
  ssh_connection_activate_channel, ssh_connection_lookup_channel, ssh_connection_foreach, find_free,
  take_number, extend,
}
use lsh.Connection.Slots.{state_of, channel_of, in_use}
use lsh.Connection.Valid.{IsValid, is_consistent, ssh_connection_dealloc_channel_lem}
use lsh.Connection.Entries.{register-activate, lookup-active, foreach-active}
use lsh.Connection.Alloc.{Allocates, ssh_connection_alloc_channel_lem}
use lsh.Connection.Reuse.{dealloc-alloc}
use lsh.Connection.Reachable.{start, step, allocate, Reachable-IsValid}

-- Number 0 is active, 1 is free, and 2 is reserved.
abbrev table : Connection ℕ
table = record {
  slots =
      record { state = active; channel = some 7 }
      ∷ record { state = free; channel = none }
      ∷ record { state = received_open; channel = none }
      ∷ [];
  allocated_channels = 32;
  next_channel = 1;
  channel_count = 2;
  max_channels = 131072;
  pending_close = false;
  alive = true;
}

table-low : (j : ℕ) → j < 1 → in_use table.slots j ≡ true
table-low zero h = refl
table-low (suc j) h = absurd (omega arith)

table-consistent : (j : ℕ) (s : Slot ℕ) → slot_at table.slots j ≡ some s → is_consistent s ≡ true
table-consistent zero s e = ground arith
table-consistent (suc zero) s e = ground arith
table-consistent (suc (suc zero)) s e = ground arith
table-consistent (suc (suc (suc j))) s e = cc

table-IsValid : IsValid table
table-IsValid = record {
  counted = refl;
  next = omega arith;
  low = table-low;
  room = omega arith;
  some_room = omega arith;
  limit = omega arith;
  small = omega arith;
  consistent = table-consistent;
}

ssh_connection_alloc_channel_lem_example :
    ((i : ℕ) × (c' : Connection ℕ) × (ssh_connection_alloc_channel table sent_open
        ≡ returns (some i, c'))
      × Allocates table sent_open i c')
    ⊎ ((ssh_connection_alloc_channel table sent_open ≡ returns (none, table))
        × ((j : ℕ) → j < table.max_channels → in_use table.slots j ≡ true))
ssh_connection_alloc_channel_lem_example =
    ssh_connection_alloc_channel_lem table sent_open table-IsValid refl

ssh_connection_dealloc_channel_lem_example :
    (c' : Connection ℕ) × (ssh_connection_dealloc_channel table 0 ≡ returns c')
    × IsValid c'
    × ((j : ℕ) → state_of c'.slots j ≡ (if j == 0 then free else state_of table.slots j))
    × ((j : ℕ) → channel_of c'.slots j ≡ (if j == 0 then none else channel_of table.slots j))
    × (c'.next_channel ≤ 0)
ssh_connection_dealloc_channel_lem_example =
    ssh_connection_dealloc_channel_lem table 0 table-IsValid refl

register-activate_example :
    (c' : Connection ℕ) × (then_run
        (ssh_connection_register_channel table 2 9)
        (λ d. ssh_connection_activate_channel d 2)
      ≡ returns c')
    × IsValid c'
    × ((j : ℕ) → state_of c'.slots j ≡ (if j == 2 then active else state_of table.slots j))
    × ((j : ℕ) → channel_of c'.slots j ≡ (if j == 2 then some 9 else channel_of table.slots j))
register-activate_example = register-activate table 2 9 table-IsValid refl refl

lookup-active_example : ssh_connection_lookup_channel table 0 active ≡ returns (some 7)
lookup-active_example = lookup-active table 0 table-IsValid

foreach-active_example : ssh_connection_foreach table.slots ≡ returns (7 ∷ [])
foreach-active_example = foreach-active table table-IsValid

dealloc-alloc_example :
    (j : ℕ) × (d : Connection ℕ) × (then_run
        (ssh_connection_dealloc_channel table 2)
        (λ c'. ssh_connection_alloc_channel c' sent_open)
      ≡ returns (some j, d))
    × (j ≤ 2)
dealloc-alloc_example = dealloc-alloc table 2 sent_open table-IsValid refl refl

-- The table after the first allocation.
abbrev first : Connection ℕ
first = record {
  slots = record { state = sent_open; channel = none } ∷ [];
  allocated_channels = 32;
  next_channel = 1;
  channel_count = 1;
  max_channels = 131072;
  pending_close = false;
  alive = true;
}

first_step : ssh_connection_alloc_channel init_ssh_connection sent_open ≡ returns (some 0, first)
unfolding ssh_connection_alloc_channel init_ssh_connection find_free take_number extend
first_step = refl

reachable-IsValid_example : IsValid first
reachable-IsValid_example =
    Reachable-IsValid first
      (step init_ssh_connection first start (allocate sent_open (some 0) first_step))
