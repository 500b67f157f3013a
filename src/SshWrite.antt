-- ===== src/SshWrite.antt =====
-- src/ssh_write.c: the buffer of data that a file descriptor has not taken yet. The parameter of the
-- operating system is what its calls of write or writev return.
pub mod Buffer
pub mod Enqueue
pub mod Keeps
pub mod Data
pub mod Runs
use lsh.Prelude.{
  ℕ, zero, suc, ◌+◌, ◌-◌, Bool, true, false, ◌||◌, ◌&&◌, List, [], ◌++◌, if◌then◌else◌, ◌==◌, ltb,
  leb, length, take, drop, add32, sub32, Option, none, some, Run, aborted, returns, then_run,
}
use lsh.LshString.{lsh_string_move, lsh_string_write}

pub record SshWriteState : Type 0 where
  pub buffer : List ℕ
  pub start : ℕ
  pub length : ℕ

-- The results of the calls in one loop `while (res < 0 && errno == EINTR)`.
pub data Attempts : Type 0 where
  interrupted : Attempts → Attempts
  failed : Attempts
  wrote : ℕ → Attempts

-- The result that ends the loop; `none` is an error.
unfoldable pub result : Attempts → Option ℕ
result (interrupted a) = result a
result failed = none
result (wrote n) = some n

abbrev pub write_max : ℕ
write_max = 0x4000

unfoldable pub init_ssh_write_state : List ℕ → SshWriteState
init_ssh_write_state buffer = record { buffer = buffer; start = 0; length = 0 }

-- `n` bytes of the buffer are gone.
abbrev pub consume : ℕ → SshWriteState → SshWriteState
consume n s = record s { start = add32 s.start n; length = sub32 s.length n }

-- The return value, the new state, and the bytes that the descriptor took.
unfoldable pub ssh_write_flush : SshWriteState → ℕ → Attempts → Run (ℕ × SshWriteState × List ℕ)
ssh_write_flush s to_write a =
    let n =
      if to_write == 0
      then (if ltb s.length write_max then s.length else write_max)
      else to_write in
    if n == 0 || ltb s.length n then aborted else elim (result a) [
      | none ↦ returns (0, s, [])
      | some k ↦ returns (k, consume k s, take k (drop s.start s.buffer))
    ]

-- The data is moved to the front if there is too little room behind it.
unfoldable pub make_room : SshWriteState → ℕ → Run SshWriteState
make_room s n =
    if ltb (length s.buffer) (add32 (add32 n s.length) s.start)
    then then_run (lsh_string_move s.buffer 0 s.length s.start)
        (λ buffer. returns (record s { buffer = buffer; start = 0 }))
    else returns s

unfoldable pub ssh_write_enqueue : SshWriteState → List ℕ → Run (Bool × SshWriteState)
ssh_write_enqueue s bytes =
    if ltb (length s.buffer) (add32 (length bytes) s.length)
    then returns (false, s)
    else then_run (make_room s (length bytes)) λ t.
      then_run (lsh_string_write t.buffer (add32 t.start t.length) bytes) λ buffer.
        returns (true, record t { buffer = buffer; length = add32 t.length (length bytes) })

-- `overflow` is the error EOVERFLOW.
pub record Written : Type 0 where
  pub value : ℕ
  pub overflow : Bool
  pub state : SshWriteState
  pub sent : List ℕ

-- The data that is left over goes to the buffer; `value` is returned unless that is full.
unfoldable pub enqueue_rest : ℕ → SshWriteState → List ℕ → List ℕ → Run Written
enqueue_rest value s bytes sent =
    if length bytes == 0
    then returns (record { value = value; overflow = false; state = s; sent = sent })
    else then_run (ssh_write_enqueue s bytes) λ (ok, t). returns (record {
      value = if ok then value else 0;
      overflow = if ok then false else true;
      state = t;
      sent = sent;
    })

-- The end of ssh_write_data behind the calls that succeed.
unfoldable pub finish_write : ℕ → SshWriteState → List ℕ → List ℕ → Run Written
finish_write done s bytes sent = if done == 0 then aborted else enqueue_rest done s bytes sent

abbrev pub amount : SshWriteState → ℕ → List ℕ → ℕ
amount s to_write bytes =
    if to_write == 0
    then (if ltb write_max (add32 s.length (length bytes))
        then write_max
        else add32 s.length (length bytes))
    else to_write

-- The caller has `amount` bytes, in the buffer and in the data together.
unfoldable pub ssh_write_data : SshWriteState → ℕ → List ℕ → Attempts → Run Written
ssh_write_data s to_write bytes a =
    let n = amount s to_write bytes in
    if n == 0 then aborted else elim (result a) [
      | none ↦ enqueue_rest 0 s bytes []
      | some k ↦
          if leb n s.length
          then finish_write k (consume k s) bytes (take k (drop s.start s.buffer))
          else if s.length == 0
          then finish_write k s (drop k bytes) (take k bytes)
          else if ltb k s.length
          then finish_write k (consume k s) bytes (take k (drop s.start s.buffer))
          else finish_write k (record s { start = 0; length = 0 }) (drop (k - s.length) bytes)
              (take s.length (drop s.start s.buffer) ++ take (k - s.length) bytes)
    ]

unfoldable pub ssh_write_available : SshWriteState → Run ℕ
ssh_write_available s =
    if leb s.length (length s.buffer) then returns (length s.buffer - s.length) else aborted
