-- ===== src/TransportWrite.antt =====
-- src/transport_write.c: encrypted packets are collected in a buffer of ssh_write.c, and written in
-- pieces of convenient sizes, with SSH_MSG_IGNORE packets as padding.
pub mod Size
pub mod Keeps
pub mod Stream
pub mod Packets
pub mod Runs
use lsh.Prelude.{
  ℕ, zero, suc, ◌+◌, ◌*◌, ◌/◌, ◌%◌, ◌^◌, Bool, true, false, ◌||◌, ◌&&◌, not, List, [], ◌∷◌, ◌++◌,
  if◌then◌else◌, ◌==◌, ltb, leb, length, get_or, add32, sub32, Option, none, some, Run, aborted,
  returns, then_run,
}
use lsh.Format.{Externals, int, reserve}
use lsh.Format.Write.{ssh_format}
use lsh.LshString.{lsh_string_write}
use lsh.SshWrite.{
  SshWriteState, Attempts, Written, init_ssh_write_state, ssh_write_flush, ssh_write_enqueue,
  ssh_write_data,
}

-- The bits of `length` above the lowest `low`: `length & mask`, where `mask` ends in so many zeros.
abbrev pub masked : ℕ → ℕ → ℕ
masked length low = length / 2 ^ low * 2 ^ low

-- The loop that shifts the mask; `none` is one that goes on for more than `fuel` rounds.
unfoldable pub shift_mask : ℕ → ℕ → ℕ → ℕ → Option ℕ
shift_mask zero length no_ignore low = none
shift_mask (suc fuel) length no_ignore low =
    let more = shift_mask fuel length no_ignore (low + 1) in
    if leb no_ignore (masked length (low + 1)) then more else some (masked length low)

unfoldable pub select_write_size : ℕ → ℕ → ℕ → Option ℕ
unfolding shift_mask
select_write_size length ignore threshold =
    if leb (8 * threshold % 2 ^ 32) length
    then some (8 * threshold % 2 ^ 32)
    else if leb threshold length
    then some threshold
    else if ignore == 0
    then some length
    else shift_mask 32 length (sub32 length ignore) 0

pub data WriteStatus : Type 0 where
  transport_write_io_error : WriteStatus
  transport_write_overflow : WriteStatus
  transport_write_complete : WriteStatus
  transport_write_pending : WriteStatus

-- `status < 0`
abbrev pub is_error : WriteStatus → Bool
is_error transport_write_io_error = true
is_error transport_write_overflow = true
is_error transport_write_complete = false
is_error transport_write_pending = false

-- The keys of one direction; the three types are the objects of crypto.h and compress.h.
pub record Keys (M C D : Type 0) : Type 0 where
  pub mac : Option M
  pub crypto : Option C
  pub deflate : Option D

pub record TransportWriteState (M C D : Type 0) : Type 0 where
  pub super : SshWriteState
  pub threshold : ℕ
  pub ignore : ℕ
  pub keys : Keys M C D
  pub seqno : ℕ

-- What the calls of one function give: its status, the new state, and the bytes written to the
-- descriptor.
pub record Result (M C D : Type 0) : Type 0 where
  pub status : WriteStatus
  pub state : TransportWriteState M C D
  pub sent : List ℕ

abbrev pub is_some : {A : Type 0} → Option A → Bool
is_some none = false
is_some (some a) = true

-- What the system does in one call of write_data or write_flush: the results of the calls of write,
-- and whether the error of a failed one is EWOULDBLOCK; `has_fd` says that the descriptor is not -1, and is
-- the same in the calls of one function.
pub record System : Type 0 where
  pub has_fd : Bool
  pub attempts : Attempts
  pub would_block : Bool

-- A loop without an end counts as a failed assertion.
abbrev pub ended : Option ℕ → Run ℕ
ended none = aborted
ended (some n) = returns n

module _ {M C D : Type 0} where
  -- `fresh` is the new buffer.
  unfoldable pub make_transport_write_state : (ℕ → List ℕ) → TransportWriteState M C D
  unfolding init_ssh_write_state
  make_transport_write_state fresh = record {
    super = init_ssh_write_state (fresh (10 * 35000));
    threshold = 500;
    ignore = 0;
    keys = record { mac = none; crypto = none; deflate = none };
    seqno = 0;
  }

  unfoldable pub transport_write_new_keys :
      TransportWriteState M C D → Keys M C D → TransportWriteState M C D
  transport_write_new_keys self keys = record self { keys = keys }

  -- Behind a write that sent something.
  unfoldable pub done_status : TransportWriteState M C D → WriteStatus × TransportWriteState M C D
  done_status self =
      if ltb self.ignore self.super.length
      then (transport_write_pending, self)
      else if ltb self.super.length self.ignore
      then (transport_write_complete, record self { ignore = self.super.length })
      else (transport_write_complete, self)

  -- `overflow` and `would_block` say what errno is, where nothing was sent.
  unfoldable pub update_status :
      TransportWriteState M C D → ℕ → Bool → Bool → WriteStatus × TransportWriteState M C D
  unfolding done_status
  update_status self done overflow would_block =
      if ltb 0 done
      then done_status self
      else if overflow
      then (transport_write_overflow, self)
      else if would_block
      then (transport_write_pending, self)
      else (transport_write_io_error, self)

  abbrev pub updated : TransportWriteState M C D → Bool → Written → Result M C D
  updated self would_block w =
      let (status, state) =
        update_status (record self { super = w.state }) w.value w.overflow would_block in
      record { status = status; state = state; sent = w.sent }

  unfoldable pub enqueue : TransportWriteState M C D → List ℕ → Run (Result M C D)
  enqueue self bytes = then_run (ssh_write_enqueue self.super bytes) (λ (ok, super).
      returns (record {
        status = if ok then transport_write_complete else transport_write_overflow;
        state = record self { super = super };
        sent = [];
      }))

  unfoldable pub mark_ignore : TransportWriteState M C D → Bool → ℕ → TransportWriteState M C D
  mark_ignore self ignore l =
      if ignore then record self { ignore = add32 self.ignore l } else record self { ignore = 0 }

  -- Either flag is a Boolean of its own.
  unfoldable pub write_data :
      TransportWriteState M C D → Bool → Bool → List ℕ → System → Run (Result M C D)
  unfolding select_write_size update_status enqueue mark_ignore
  write_data old push ignore bytes system =
      let self = mark_ignore old ignore (length bytes) in
      if not system.has_fd
      then aborted
      else if not push && ltb (add32 (length bytes) self.super.length) self.threshold
      then enqueue self bytes
      else then_run
          (ended
            (select_write_size (add32 self.super.length (length bytes)) self.ignore self.threshold))
          (λ to_write.
            if to_write == 0
            then enqueue self bytes
            else then_run (ssh_write_data self.super to_write bytes system.attempts)
                (λ w. returns (updated self system.would_block w)))

  unfoldable pub write_flush : TransportWriteState M C D → System → Run (Result M C D)
  unfolding select_write_size update_status
  write_flush self system =
      if leb self.super.length self.ignore
      then returns (record { status = transport_write_complete; state = self; sent = [] })
      else then_run (ended (select_write_size self.super.length self.ignore self.threshold))
          (λ to_write.
            if to_write == 0
            then aborted
            else then_run (ssh_write_flush self.super to_write system.attempts)
                (λ (done, super, sent). returns (
                  updated self system.would_block
                    (record { value = done; overflow = false; state = super; sent = sent }))))

  -- `encrypt_packet` is the function of encrypt.c, which also changes the objects of the keys;
  -- `random_bytes` are those of the random generator.
  module _ (encrypt_packet : Keys M C D → ℕ → List ℕ → Run (List ℕ × Keys M C D)) where
    abbrev pub encrypt_next :
        TransportWriteState M C D → List ℕ → Run (List ℕ × TransportWriteState M C D)
    encrypt_next self packet =
        then_run (encrypt_packet self.keys self.seqno packet) (λ (encrypted, keys).
          returns (encrypted, record self { keys = keys; seqno = add32 self.seqno 1 }))

    -- The data of the packet starts behind the message number and a length field.
    unfoldable pub make_ignore_packet :
        Externals
        → (ℕ → List ℕ)
        → (ℕ → List ℕ)
        → TransportWriteState M C D
        → ℕ
        → Run (List ℕ × TransportWriteState M C D)
    make_ignore_packet ext fresh random_bytes self l =
        then_run (ssh_format ext fresh (b'%' ∷ b'c' ∷ b'%' ∷ b'r' ∷ []) (int 2 ∷ reserve l ∷ []))
          (λ packet.
            then_run (lsh_string_write packet 5 (random_bytes l))
              (λ filled. encrypt_next self filled))

    -- What the two calls of write_data give together.
    abbrev pub after : List ℕ → Run (Result M C D) → Run (Result M C D)
    after sent r = then_run r (λ x. returns (record x { sent = sent ++ x.sent }))

    unfoldable pub transport_write_packet :
        Externals
        → (ℕ → List ℕ)
        → (ℕ → List ℕ)
        → TransportWriteState M C D
        → Bool
        → Bool
        → List ℕ
        → System
        → System
        → Run (Result M C D)
    unfolding write_data make_ignore_packet
    transport_write_packet ext fresh random_bytes self push ignore_flag packet first second =
        let ignore = ignore_flag || get_or packet 0 0 == 2 in
        if length packet == 0
        then aborted
        else then_run (encrypt_next self packet) (λ (encrypted, next).
          if (push && not ignore)
            && (is_some next.keys.crypto
                && ltb (add32 (length encrypted) next.super.length) next.threshold)
          then (then_run (write_data next false false encrypted first) (λ r.
              if is_error r.status
              then returns r
              else then_run (make_ignore_packet ext fresh random_bytes r.state 10)
                  (λ (padding, padded). after r.sent (write_data padded push true padding second))))
          else write_data next push ignore encrypted second)

    unfoldable pub transport_write_line :
        TransportWriteState M C D → List ℕ → System → Run (Result M C D)
    unfolding write_data
    transport_write_line self line system = write_data self true false line system

    unfoldable pub transport_write_flush :
        Externals
        → (ℕ → List ℕ)
        → (ℕ → List ℕ)
        → TransportWriteState M C D
        → System
        → System
        → Run (Result M C D)
    unfolding write_data write_flush make_ignore_packet
    transport_write_flush ext fresh random_bytes self first second =
        if self.ignore == 0 && (is_some self.keys.crypto && ltb self.super.length self.threshold)
        then (then_run (make_ignore_packet ext fresh random_bytes self 10) (λ (padding, padded).
            then_run (write_data padded false true padding first) (λ r.
              if is_error r.status then returns r else after r.sent (write_flush r.state second))))
        else write_flush self second
