-- ===== src/SshRead.antt =====
-- src/ssh_read.c. Of the input buffer its size is kept, where its contents start, and the contents; a
-- read that moves them to the front changes only the start.
use lsh.Prelude.{
  ℕ, ◌-◌, Bool, ◌||◌, not, List, [], ◌++◌, if◌then◌else◌, ◌==◌, ltb, length, add32, Run, aborted,
  returns, then_run,
}

pub data ReadStatus : Type 0 where
  ssh_read_push : ReadStatus
  ssh_read_pending : ReadStatus

pub record SshReadState : Type 0 where
  pub size : ℕ
  pub start : ℕ
  pub input : List ℕ
  pub read_status : ReadStatus

unfoldable pub init_ssh_read_state : ℕ → SshReadState
init_ssh_read_state size = record {
  size = size;
  start = 0;
  input = [];
  read_status = ssh_read_push;
}

-- What one call of read gives; `readable` says if more can be read right away.
pub data Input : Type 0 where
  read_error : (would_block : Bool) → Input
  read_end : Input
  read_bytes : List ℕ → (readable : Bool) → Input

-- The contents are moved to the front if there is too little room behind them.
unfoldable pub make_read_room : SshReadState → ℕ → Run SshReadState
make_read_room self limit =
    if ltb self.size (add32 self.start limit)
    then (if self.start == 0 then aborted else returns (record self { start = 0 }))
    else returns self

unfoldable pub ssh_read_some : SshReadState → ℕ → Input → Run SshReadState
unfolding make_read_room
ssh_read_some self limit input =
    if not (ltb limit self.size) || not (ltb (length self.input) limit)
    then aborted
    else then_run (make_read_room self limit) (λ moved. elim input [
      | read_error would_block ↦ returns moved
      | read_end ↦ returns moved
      | read_bytes bytes readable ↦ returns (record moved {
        input = moved.input ++ bytes;
        read_status =
            if ltb (length bytes) (limit - length moved.input) || not readable
            then ssh_read_push
            else ssh_read_pending;
      })
    ])
