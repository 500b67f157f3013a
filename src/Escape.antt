-- ===== src/Escape.antt =====
-- client_escape.c: escape sequences in what the user types, and the loop of client_session.c that sends
-- the rest. Callbacks are recorded in the order of their calls.
pub mod Machine
pub mod Session
pub mod Runs
use lsh.Prelude.{
  ℕ, zero, suc, ◌+◌, ◌-◌, Bool, true, false, ◌||◌, ◌&&◌, List, [], ◌∷◌, ◌++◌, if◌then◌else◌, ◌==◌,
  ltb, length, take, drop, Run, aborted, returns, then_run,
}

pub data EscapeState : Type 0 where
  got_none : EscapeState
  got_newline : EscapeState
  got_escape : EscapeState

-- `dispatch` tells which characters have a callback.
pub record EscapeInfo : Type 0 where
  pub escape : ℕ
  pub dispatch : ℕ → Bool

-- A callback that is run, or the message that there is none.
pub data Call : Type 0 where
  callback : ℕ → Call
  not_defined : ℕ → Call

-- 1 for the quote action.
unfoldable pub escape_dispatch : EscapeInfo → ℕ → ℕ × List Call
escape_dispatch info c =
    if c == info.escape
    then (1, [])
    else if info.dispatch c
    then (0, callback c ∷ [])
    else (0, not_defined c ∷ [])

unfoldable pub newlinep : ℕ → Bool
newlinep c = c == 10 || c == 13

-- The new state, `*copy`, `*done`, and the calls.
pub record Processed : Type 0 where
  pub state : EscapeState
  pub copy : ℕ
  pub done : ℕ
  pub calls : List Call

abbrev pub dispatched : ℕ → ℕ → ℕ × List Call → Processed
dispatched copy done (quoted, calls) = record {
  state = got_none;
  copy = copy + quoted;
  done = done;
  calls = calls;
}

abbrev pub quiet : EscapeState → ℕ → ℕ → Processed
quiet state copy done = record { state = state; copy = copy; done = done; calls = [] }

-- The loop of the state ESCAPE_GOT_NONE, with `i` bytes behind it.
unfoldable pub scan : EscapeInfo → ℕ → List ℕ → Processed
scan info i [] = quiet got_none i i
scan info i (x ∷ []) =
    if newlinep x then quiet got_newline (i + 1) (i + 1) else quiet got_none (i + 1) (i + 1)
scan info i (x ∷ y ∷ []) =
    let rest = scan info (i + 1) (y ∷ []) in
    if newlinep x && y == info.escape then quiet got_escape (i + 1) (i + 2) else rest
scan info i (x ∷ y ∷ z ∷ r) =
    let rest = scan info (i + 1) (y ∷ z ∷ r) in
    if newlinep x && y == info.escape
    then dispatched (i + 1) (i + 3) (escape_dispatch info z)
    else rest

unfoldable pub client_escape_process : EscapeInfo → EscapeState → List ℕ → Run Processed
client_escape_process info state [] = aborted
client_escape_process info got_escape (x ∷ r) = returns (dispatched 0 1 (escape_dispatch info x))
client_escape_process info got_newline (x ∷ []) =
    returns (if x == info.escape then quiet got_escape 0 1 else scan info 0 (x ∷ []))
client_escape_process info got_newline (x ∷ y ∷ r) =
    returns (
      if x == info.escape then dispatched 0 2 (escape_dispatch info y) else scan info 0 (x ∷ y ∷ r))
client_escape_process info got_none (x ∷ r) = returns (scan info 0 (x ∷ r))

-- What is passed to channel_transmit_data, and the calls, each in order.
pub record Typed : Type 0 where
  pub state : EscapeState
  pub sent : List ℕ
  pub calls : List Call

-- The loop of do_read_stdin, on fuel.
unfoldable pub read_loop : ℕ → EscapeInfo → EscapeState → List ℕ → Run Typed
read_loop fuel info state [] = returns (record { state = state; sent = []; calls = [] })
read_loop zero info state (x ∷ r) = aborted
read_loop (suc fuel) info state (x ∷ r) = then_run (client_escape_process info state (x ∷ r)) λ p.
    then_run (read_loop fuel info p.state (drop p.done (x ∷ r))) λ t. returns (record {
      state = t.state;
      sent = (if ltb 0 p.copy then take p.copy (x ∷ r) else []) ++ t.sent;
      calls = p.calls ++ t.calls;
    })
