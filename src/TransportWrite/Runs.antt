-- ===== src/TransportWrite/Runs.antt =====
-- src/transport_write.c on a small buffer.
use lsh.Prelude.{
  ℕ, ◌≤◌, ◌<◌, ◌≡◌, refl, true, false, List, [], ◌∷◌, Option, none, some, returns, Run, arith, ◌⊎◌,
  inl, inr,
}
use lsh.Format.Runs.{zeros, small_externals, length-zeros}
use lsh.SshWrite.{failed, wrote, result}
use lsh.TransportWrite.{
  Keys, TransportWriteState, System, shift_mask, select_write_size, write_data,
  transport_write_packet, mark_ignore,
}
use lsh.TransportWrite.Size.{select_write_size-Selects}
use lsh.TransportWrite.Keeps.{IsReady, Sends, Obeys}
use lsh.TransportWrite.Stream.{data_size, write_data-Sends}
use lsh.TransportWrite.Packets.{Streams, packet_bytes, transport_write_packet-Streams}

-- 70 bytes, of which 20 may be ignored: 64 are written.
select_write_size-Selects_example :
    (n : ℕ) × (select_write_size 70 20 500 ≡ some n) × (0 < n) × (n ≤ 70) × (70 < 500 → 50 ≤ n)
select_write_size-Selects_example =
    select_write_size-Selects 70 20 500 (omega arith) (omega arith) (omega arith) (λ h. omega arith)

size_example : select_write_size 70 20 500 ≡ some 64
unfolding select_write_size shift_mask
size_example = refl

abbrev waiting : TransportWriteState ℕ ℕ ℕ
waiting = record {
  super = record { buffer = zeros 64; start = 2; length = 8 };
  threshold = 16;
  ignore = 0;
  keys = record { mac = none; crypto = some 1; deflate = none };
  seqno = 3;
}

waiting-IsReady : IsReady waiting
waiting-IsReady = record {
  valid = record { inside = omega arith; small = omega arith };
  ignorable = omega arith;
  positive = omega arith;
  small = omega arith;
}

abbrev takes_four : System
takes_four = record { has_fd = true; attempts = wrote 4; would_block = false }

abbrev blocks_now : System
blocks_now = record { has_fd = true; attempts = failed; would_block = true }

takes_four-Obeys : (o : Option ℕ) → (o ≡ some 10) ⊎ (o ≡ some 8) → Obeys takes_four o
unfolding result
takes_four-Obeys o (inl e) n f = (omega arith, let k : n ≡ 10 = cc in omega arith)
takes_four-Obeys o (inr e) n f = (omega arith, let k : n ≡ 8 = cc in omega arith)

blocks_now-Obeys : (o : Option ℕ) → Obeys blocks_now o
unfolding result
blocks_now-Obeys o n e = tt

data_size_example : data_size waiting false (7 ∷ 7 ∷ []) ≡ some 10
unfolding mark_ignore select_write_size
data_size_example = refl

write_data-Sends_example :
    Sends true takes_four waiting
      (7 ∷ 7 ∷ [])
      (write_data waiting true false (7 ∷ 7 ∷ []) takes_four)
write_data-Sends_example =
    write_data-Sends waiting true false (7 ∷ 7 ∷ []) takes_four refl waiting-IsReady (omega arith)
      (λ h. cc) (takes_four-Obeys _ (inl data_size_example))

abbrev marked : Keys ℕ ℕ ℕ → ℕ → List ℕ → List ℕ × Keys ℕ ℕ ℕ
marked keys seqno packet = (0 ∷ [], keys)

abbrev mark : Keys ℕ ℕ ℕ → ℕ → List ℕ → Run (List ℕ × Keys ℕ ℕ ℕ)
mark keys seqno packet = returns (marked keys seqno packet)

transport_write_packet-Streams_example :
    Streams mark marked true blocks_now waiting
      (packet_bytes mark marked waiting true false (94 ∷ 1 ∷ []) (zeros 10))
      (transport_write_packet mark small_externals zeros zeros waiting true false
        (94 ∷ 1 ∷ [])
        blocks_now
        blocks_now)
transport_write_packet-Streams_example =
    transport_write_packet-Streams mark marked small_externals zeros zeros waiting true false
      (94 ∷ 1 ∷ []) blocks_now blocks_now length-zeros refl
      (λ keys seqno packet h k. (refl, omega arith, omega arith)) waiting-IsReady
      (omega arith, omega arith) (λ h. cc) (refl, refl) (blocks_now-Obeys _)
