-- ===== src/Connection.antt =====
-- src/connection.c: the table of a connection's channels, indexed by their local numbers.
pub mod Slots
pub mod Valid
pub mod Entries
pub mod Alloc
pub mod Reachable
pub mod Reuse
pub mod Runs
use lsh.Prelude.{
  ℕ, zero, suc, ◌+◌, ◌-◌, ◌*◌, Bool, true, false, ◌&&◌, ◌||◌, not, List, [], ◌∷◌, ◌++◌, Option,
  none, some, if◌then◌else◌, ltb, ◌==◌, length, drop, add32, Run, aborted, returns, then_run,
}

-- enum channel_alloc_state
pub data AllocState : Type 0 where
  free : AllocState
  sent_open : AllocState
  received_open : AllocState
  active : AllocState

abbrev pub is_free : AllocState → Bool
is_free free = true
is_free _ = false

abbrev pub is_same : AllocState → AllocState → Bool
is_same free free = true
is_same sent_open sent_open = true
is_same received_open received_open = true
is_same active active = true
is_same _ _ = false

abbrev pub is_some {ℓ} : {A : Type ℓ} → Option A → Bool
is_some none = false
is_some (some a) = true

-- The entries of the arrays `alloc_state` and `channels` at one number.
pub record Slot (C : Type 0) : Type 0 where
  pub state : AllocState
  pub channel : Option C

-- `slots` holds the entries that are in use, so its length is `used_channels`.
pub record Connection (C : Type 0) : Type 0 where
  pub slots : List (Slot C)
  pub allocated_channels : ℕ
  pub next_channel : ℕ
  pub channel_count : ℕ
  pub max_channels : ℕ
  pub pending_close : Bool
  pub alive : Bool

abbrev pub used_channels : {C : Type 0} → Connection C → ℕ
used_channels c = length c.slots

abbrev pub slot_at : {C : Type 0} → List (Slot C) → ℕ → Option (Slot C)
slot_at [] i = none
slot_at (s ∷ l) zero = some s
slot_at (s ∷ l) (suc i) = slot_at l i

-- The number `i` is below the length.
abbrev pub set_slot : {C : Type 0} → List (Slot C) → ℕ → Slot C → List (Slot C)
set_slot [] i s' = []
set_slot (s ∷ l) zero s' = s' ∷ l
set_slot (s ∷ l) (suc i) s' = s ∷ set_slot l i s'

unfoldable pub init_ssh_connection : {C : Type 0} → Connection C
init_ssh_connection = record {
  slots = [];
  allocated_channels = 32;
  next_channel = 0;
  channel_count = 0;
  max_channels = 131072;
  pending_close = false;
  alive = true;
}

-- The loop of ssh_connection_alloc_channel over the entries from `i` on: the first one that is free.
unfoldable pub find_free : {C : Type 0} → ℕ → List (Slot C) → Option (ℕ × Slot C)
find_free i [] = none
find_free i (s ∷ l) =
    let rest = find_free (suc i) l in if is_free s.state then some (i, s) else rest

-- `success`
unfoldable pub take_number :
    {C : Type 0} → Connection C → ℕ → AllocState → Option C → Run (Option ℕ × Connection C)
take_number c i type channel = returns (
  some i,
  record c {
    slots = set_slot c.slots i (record { state = type; channel = channel });
    channel_count = add32 c.channel_count 1;
  },
)

-- A number behind the ones that are in use: here `i` is `used_channels`.
unfoldable pub extend : {C : Type 0} → Connection C → ℕ → Connection C
extend c i = record c {
  slots = c.slots ++ (record { state = free; channel = none } ∷ []);
  allocated_channels =
      if i == c.allocated_channels
      then add32 c.allocated_channels c.allocated_channels
      else c.allocated_channels;
  next_channel = suc i;
}

-- The number `none` stands for -1.
unfoldable pub ssh_connection_alloc_channel :
    {C : Type 0} → Connection C → AllocState → Run (Option ℕ × Connection C)
ssh_connection_alloc_channel c type =
    if not (is_same type sent_open || is_same type received_open)
    then aborted
    else elim (find_free c.next_channel (drop c.next_channel c.slots)) [
      | some (i, s) ↦
          if is_some s.channel
          then aborted
          else take_number (record c { next_channel = suc i }) i type s.channel
      | none ↦
          if used_channels c == c.max_channels
          then returns (none, c)
          else take_number (extend c (used_channels c)) (used_channels c) type none
    ]

unfoldable pub ssh_connection_dealloc_channel : {C : Type 0} → Connection C → ℕ → Run (Connection C)
ssh_connection_dealloc_channel c i = elim (slot_at c.slots i) [
  | none ↦ aborted
  | some s ↦
      if c.channel_count == 0 || is_free s.state
      then aborted
      else returns (record c {
        slots = set_slot c.slots i (record { state = free; channel = none });
        channel_count = c.channel_count - 1;
        next_channel = if ltb i c.next_channel then i else c.next_channel;
      })
]

unfoldable pub ssh_connection_register_channel :
    {C : Type 0} → Connection C → ℕ → C → Run (Connection C)
ssh_connection_register_channel c i channel = elim (slot_at c.slots i) [
  | none ↦ aborted
  | some s ↦
      if is_free s.state || is_some s.channel
      then aborted
      else returns (record c {
        slots = set_slot c.slots i (record { state = s.state; channel = some channel });
      })
]

unfoldable pub ssh_connection_activate_channel :
    {C : Type 0} → Connection C → ℕ → Run (Connection C)
ssh_connection_activate_channel c i = elim (slot_at c.slots i) [
  | none ↦ aborted
  | some s ↦
      if is_free s.state || not (is_some s.channel)
      then aborted
      else returns
          (record c { slots = set_slot c.slots i (record { state = active; channel = s.channel }) })
]

unfoldable pub ssh_connection_lookup_channel :
    {C : Type 0} → Connection C → ℕ → AllocState → Run (Option C)
ssh_connection_lookup_channel c i flag =
    if is_free flag then aborted else elim (slot_at c.slots i) [
      | none ↦ returns none
      | some s ↦
          if not (is_same s.state flag)
          then returns none
          else if is_some s.channel
          then returns s.channel
          else aborted
    ]

-- `KILL_RESOURCE` is the end of the connection.
unfoldable pub ssh_connection_pending_close : {C : Type 0} → Connection C → Connection C
ssh_connection_pending_close c = record c {
  pending_close = true;
  alive = if c.channel_count == 0 then false else c.alive;
}

-- A connection that is to be closed ends with its last channel.
unfoldable pub kill_if_empty : {C : Type 0} → Connection C → Connection C
kill_if_empty c = record c {
  alive = if c.pending_close && c.channel_count == 0 then false else c.alive;
}

-- The connection's part of channel_finished in channel.c, for the channel with number `i`.
unfoldable pub finish_channel : {C : Type 0} → Connection C → ℕ → Run (Connection C)
finish_channel c i = then_run (ssh_connection_dealloc_channel c i) (λ d. returns (kill_if_empty d))

-- The channels that ssh_connection_foreach calls `f` with, in order.
unfoldable pub ssh_connection_foreach : {C : Type 0} → List (Slot C) → Run (List C)
ssh_connection_foreach [] = returns []
ssh_connection_foreach (s ∷ l) =
    let rest = ssh_connection_foreach l in
    if is_same s.state active
    then elim s.channel [
      | none ↦ aborted
      | some channel ↦ then_run rest λ visited. returns (channel ∷ visited)
    ]
    else rest
