-- ===== src/TransportWrite/Stream.antt =====
-- src/transport_write.c: the bytes of the encrypted packets go out in the order of the calls.
use lsh.Prelude.{
  ℕ, ◌+◌, ◌*◌, ◌^◌, ◌<◌, ◌≡◌, refl, Bool, true, false, not, ◌&&◌, List, Option, ◌==◌, ltb, length,
  add32, arith, Bool-cases, inl, inr,
}
use lsh.SshWrite.Buffer.{IsValid}
use lsh.Prelude.{◌||◌, ◌⊎◌, Run, aborted, if◌then◌else◌, then_run, returns, ◌≤◌}
use mathlib.Core.Path.{subst}
use lsh.SshWrite.{ssh_write_data}
use lsh.TransportWrite.{
  Result, ended, enqueue, updated, TransportWriteState, System, mark_ignore, select_write_size,
  write_data,
}
use lsh.TransportWrite.Keeps.{IsReady, Sends, Obeys, enqueue-Sends, write_now-Sends}

module _ {M C D : Type 0} where
  -- The size that write_data selects, if it tries to write.
  abbrev pub data_size : TransportWriteState M C D → Bool → List ℕ → Option ℕ
  data_size old ignore bytes =
      let self = mark_ignore old ignore (length bytes) in
      select_write_size (add32 self.super.length (length bytes)) self.ignore self.threshold

  -- Whether write_data tries to write: on a push, or when the threshold is reached.
  abbrev pub tries : TransportWriteState M C D → Bool → List ℕ → Bool
  tries self push bytes =
      (push || not (ltb (add32 (length bytes) self.super.length) self.threshold))
      && not (self.super.length + length bytes == 0)

  -- The first assertion of write_data.
  with_fd :
      (tried : Bool) (system : System) (self : TransportWriteState M C D) (bytes : List ℕ)
      (has_fd : Bool) (r : Run (Result M C D))
      → has_fd ≡ true
      → Sends tried system self bytes r
      → Sends tried system self bytes (if not has_fd then aborted else r)
  with_fd tried system self bytes true r e h = h
  with_fd tried system self bytes false r e h = absurd (ground arith)

  -- Either the data is put in the buffer, or an attempt to write is made.
  data-Sends :
      (self : TransportWriteState M C D) (push : Bool) (bytes : List ℕ) (system : System)
      → IsValid self.super × (0 < self.threshold) × (8 * self.threshold < 2 ^ 32)
      → self.ignore ≤ self.super.length + length bytes
      → length bytes + self.super.length < 2 ^ 32
      → ((not push && ltb (add32 (length bytes) self.super.length) self.threshold) ≡ false
          → self.super.length + length bytes < self.threshold
          → (self.ignore ≡ 0) ⊎ (self.ignore < self.super.length + length bytes))
      → Obeys system
          (select_write_size (add32 self.super.length (length bytes)) self.ignore self.threshold)
      → Sends (tries self push bytes) system self bytes (
          if not push && ltb (add32 (length bytes) self.super.length) self.threshold
          then enqueue self bytes
          else then_run
              (ended (
                select_write_size
                  (add32 self.super.length (length bytes))
                  self.ignore
                  self.threshold))
              (λ to_write.
                if to_write == 0
                then enqueue self bytes
                else then_run
                    (ssh_write_data self.super to_write bytes system.attempts)
                    (λ w. returns (updated self system.would_block w))))
  data-Sends self push bytes system good i small ends obeys =
      elim (Bool-cases (not push && ltb (add32 (length bytes) self.super.length) self.threshold)) [
        | inl e ↦
            let kept : tries self push bytes ≡ false = ground arith in
            rw (kept, e) (enqueue-Sends self system bytes good i small)
        | inr e ↦
            let tried : tries self push bytes ≡ not (self.super.length + length bytes == 0) =
              ground arith in
            rw (tried, e) (write_now-Sends self bytes system good i small (ends e) obeys)
      ]

  -- write_data on a ready state with a descriptor, where the system takes at most what it is given,
  -- returns without a failed assertion, unless ignorable data is pushed with nothing else in the buffer.
  -- What was sent, what waits and what is lost are, in this order, what waited before and the new data.
  -- Data is lost just on an overflow. Else the state is ready again, and: if there is data and it is pushed or
  -- reaches the threshold, just the bytes are sent that the system takes, with the status of that attempt; and if
  -- not, nothing is sent, with the status of a complete write.
  pub write_data-Sends :
      (self : TransportWriteState M C D) (push ignore : Bool) (bytes : List ℕ) (system : System)
      → system.has_fd ≡ true
      → IsReady self
      → length bytes + self.super.length < 2 ^ 32
      → ((push && ignore) ≡ true → self.ignore < self.super.length)
      → Obeys system (data_size self ignore bytes)
      → Sends (tries self push bytes) system self bytes (write_data self push ignore bytes system)
  unfolding write_data
  write_data-Sends self push false bytes system has_fd ready small ends obeys =
      with_fd (tries self push bytes) system self bytes system.has_fd _ has_fd (
        data-Sends (record self { ignore = 0 }) push bytes system
          (ready.valid, ready.positive, ready.small) (omega arith) small (λ e h. inl refl) obeys)
  write_data-Sends self push true bytes system has_fd ready small ends obeys =
      with_fd (tries self push bytes) system self bytes system.has_fd _ has_fd (
        data-Sends (record self { ignore = add32 self.ignore (length bytes) }) push bytes system
          (ready.valid, ready.positive, ready.small) (let i = ready.ignorable in omega arith) small
          (λ e h. inr (pushed push ends e h)) obeys)
    where
      pushed :
          (p : Bool)
          → ((p && true) ≡ true → self.ignore < self.super.length)
          → (not p && ltb (add32 (length bytes) self.super.length) self.threshold) ≡ false
          → self.super.length + length bytes < self.threshold
          → add32 self.ignore (length bytes) < self.super.length + length bytes
      pushed true f e h = let k = f refl in omega arith
      pushed false f e h = absurd (ground arith)

  pub tries-push :
      (self : TransportWriteState M C D) (bytes : List ℕ)
      → 0 < length bytes
      → tries self true bytes ≡ true
  tries-push self bytes some_bytes = ground arith

  -- Data that is pushed.
  pub push-Sends :
      (self : TransportWriteState M C D) (ignore : Bool) (bytes : List ℕ) (system : System)
      → 0 < length bytes
      → system.has_fd ≡ true
      → IsReady self
      → length bytes + self.super.length < 2 ^ 32
      → (ignore ≡ true → self.ignore < self.super.length)
      → Obeys system (data_size self ignore bytes)
      → Sends true system self bytes (write_data self true ignore bytes system)
  push-Sends self ignore bytes system some_bytes has_fd ready small ends obeys =
      subst (λ t. Sends t system self bytes (write_data self true ignore bytes system))
        (tries-push self bytes some_bytes)
        (write_data-Sends self true ignore bytes system has_fd ready small ends obeys)
