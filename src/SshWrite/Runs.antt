-- ===== src/SshWrite/Runs.antt =====
-- ssh_write.c on a buffer of eight bytes, three of which wait.
use lsh.Prelude.{ℕ, ◌≡◌, List, [], ◌∷◌, ◌++◌, length, leb, if◌then◌else◌, returns, arith}
use lsh.SshWrite.{
  SshWriteState, Attempts, interrupted, wrote, result, ssh_write_enqueue, ssh_write_flush,
  ssh_write_data,
}
use lsh.SshWrite.Buffer.{pending, IsValid}
use lsh.SshWrite.Enqueue.{ssh_write_enqueue_lem}
use lsh.SshWrite.Keeps.{taken, Keeps}
use lsh.SshWrite.Data.{ssh_write_data-Keeps, ssh_write_flush_lem}

abbrev waiting : SshWriteState
waiting = record { buffer = 9 ∷ 9 ∷ 9 ∷ 1 ∷ 2 ∷ 3 ∷ 9 ∷ 9 ∷ []; start = 3; length = 3 }

waiting-IsValid : IsValid waiting
waiting-IsValid = record { inside = omega arith; small = omega arith }

-- The data has to be moved.
ssh_write_enqueue_lem_example :
    (t : SshWriteState) × (ssh_write_enqueue waiting (4 ∷ 5 ∷ 6 ∷ 7 ∷ []) ≡ returns (leb 7 8, t))
    × IsValid t
    × (pending t ≡ (if leb 7 8 then pending waiting ++ (4 ∷ 5 ∷ 6 ∷ 7 ∷ []) else pending waiting))
    × (length t.buffer ≡ length waiting.buffer)
ssh_write_enqueue_lem_example =
    ssh_write_enqueue_lem waiting (4 ∷ 5 ∷ 6 ∷ 7 ∷ []) waiting-IsValid (omega arith)

-- One interrupted call of writev, and one that takes four bytes of the seven.
abbrev attempts : Attempts
attempts = interrupted (wrote 4)

ssh_write_data-Keeps_example :
    Keeps waiting
      (4 ∷ 5 ∷ 6 ∷ 7 ∷ [])
      (taken attempts)
      (ssh_write_data waiting 0 (4 ∷ 5 ∷ 6 ∷ 7 ∷ []) attempts)
unfolding result
ssh_write_data-Keeps_example =
    ssh_write_data-Keeps waiting 0 (4 ∷ 5 ∷ 6 ∷ 7 ∷ []) attempts waiting-IsValid (omega arith)
      (omega arith) (omega arith) (omega arith, omega arith)

ssh_write_flush_lem_example :
    (t : SshWriteState) × (sent : List ℕ) × (ssh_write_flush waiting 2 (wrote 2)
      ≡ returns (2, t, sent))
    × IsValid t
    × (sent ++ pending t ≡ pending waiting)
    × (length sent ≡ 2)
unfolding result
ssh_write_flush_lem_example =
    ssh_write_flush_lem waiting 2 (wrote 2) waiting-IsValid (omega arith) (omega arith)
      (omega arith, omega arith)
