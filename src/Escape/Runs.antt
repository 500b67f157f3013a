-- ===== src/Escape/Runs.antt =====
-- Escape sequences with `~` as the escape character and a callback for `?`.
use lsh.Prelude.{ℕ, ◌≤◌, ◌<◌, ◌≡◌, List, [], ◌∷◌, ◌==◌, length, take, returns, arith}
use lsh.Escape.{
  got_none, EscapeInfo, callback, newlinep, Processed, client_escape_process, read_loop,
}
use lsh.Escape.Machine.{read_bytes}
use lsh.Escape.Session.{client_escape_process_lem, read_loop-read_bytes}

abbrev tilde : EscapeInfo
tilde = record { escape = b'~'; dispatch = λ c. c == b'?' }

-- `a`, a newline, `~?`, `b`, a newline, and `~~`.
abbrev typed : List ℕ
typed = b'a' ∷ 10 ∷ b'~' ∷ b'?' ∷ b'b' ∷ 10 ∷ b'~' ∷ b'~' ∷ []

client_escape_process_lem_example :
    (p : Processed) × (client_escape_process tilde got_none typed ≡ returns p)
    × (0 < p.done)
    × (p.done ≤ length typed)
    × (read_bytes tilde got_none (take p.done typed)
        ≡ record { state = p.state; sent = take p.copy typed; calls = p.calls })
client_escape_process_lem_example = client_escape_process_lem tilde got_none typed (omega arith)

read_loop-read_bytes_example :
    read_loop 8 tilde got_none typed
    ≡ returns (record {
      state = got_none;
      sent = b'a' ∷ 10 ∷ b'b' ∷ 10 ∷ b'~' ∷ [];
      calls = callback b'?' ∷ [];
    })
unfolding newlinep
read_loop-read_bytes_example = read_loop-read_bytes 8 tilde got_none typed (omega arith)
