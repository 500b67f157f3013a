-- ===== src/TransportWrite/Keeps.antt =====
-- src/transport_write.c: write_data and write_flush keep the stream of bytes, and the part of the
-- buffer that may be ignored.
use lsh.Prelude.{
  ℕ, ◌+◌, ◌*◌, ◌^◌, ◌≤◌, ◌<◌, ◌≡◌, refl, ap, ◌∙◌, Bool, true, false, not, List, [], ◌++◌,
  append-nil, length-append, Option, some, if◌then◌else◌, ◌==◌, leb, ltb, length, add32, Run,
  returns, then_run, ◌⊎◌, arith, Bool-cases, inl, inr,
}
use lsh.SshWrite.{Written, amount, ssh_write_data}
use lsh.SshWrite.Buffer.{pending, IsValid, length-pending}
use lsh.SshWrite.Keeps.{taken, IsBounded}
use lsh.SshWrite.Data.{ssh_write_data-Keeps}
use lsh.SshWrite.Enqueue.{ssh_write_enqueue_lem}
use lsh.TransportWrite.{
  WriteStatus, transport_write_io_error, transport_write_overflow, transport_write_complete,
  transport_write_pending, TransportWriteState, Result, System, ended, done_status, update_status,
  updated, enqueue, mark_ignore, select_write_size,
}
use lsh.TransportWrite.Size.{select_write_size-ends}

abbrev pub is_overflow : WriteStatus → Bool
is_overflow transport_write_io_error = false
is_overflow transport_write_overflow = true
is_overflow transport_write_complete = false
is_overflow transport_write_pending = false

-- The system takes at most what it is given.
abbrev pub Obeys : System → Option ℕ → Type 0
Obeys system o = (n : ℕ) → o ≡ some n → IsBounded n system.attempts

module _ {M C D : Type 0} where
  -- The buffer is valid, and no more of it may be ignored than there is.
  pub record IsReady (self : TransportWriteState M C D) : Type 0 where
    pub valid : IsValid self.super
    pub ignorable : self.ignore ≤ self.super.length
    pub positive : 0 < self.threshold
    pub small : 8 * self.threshold < 2 ^ 32

  -- What a state keeps when data is written.
  abbrev pub Same : TransportWriteState M C D → TransportWriteState M C D → Type 0
  Same self other =
      (self.threshold ≡ other.threshold) × (self.keys ≡ other.keys) × (self.seqno ≡ other.seqno)

  -- The status of an attempt at which the system took `k` bytes.
  abbrev pub attempt_status : Bool → ℕ → TransportWriteState M C D → WriteStatus
  attempt_status would_block k state =
      if ltb 0 k
      then (if ltb state.ignore state.super.length
          then transport_write_pending
          else transport_write_complete)
      else if would_block
      then transport_write_pending
      else transport_write_io_error

  -- What went out, and the status, of a call that tries to write or does not.
  abbrev pub Progress : Bool → System → Result M C D → Type 0
  Progress true system x =
      (length x.sent ≡ taken system.attempts)
      × (x.status ≡ attempt_status system.would_block (taken system.attempts) x.state)
  Progress false system x = (x.sent ≡ []) × (x.status ≡ transport_write_complete)

  -- The run returns: what it sent, what waits and what is lost are, in this order, what waited in
  -- `self` and `bytes`; bytes are lost just on an overflow, and else the new state is ready
  -- and the system has taken what it does of an attempt, if the call tries to write.
  abbrev pub Sends :
      Bool → System → TransportWriteState M C D → List ℕ → Run (Result M C D) → Type 0
  Sends tried system self bytes r =
      (x : Result M C D) × (lost : List ℕ) × (r ≡ returns x)
      × IsValid x.state.super
      × (x.sent ++ (pending x.state.super ++ lost) ≡ pending self.super ++ bytes)
      × ((length lost == 0) ≡ not (is_overflow x.status))
      × (is_overflow x.status ≡ false → IsReady x.state × Progress tried system x)
      × Same x.state self

  done_status-IsReady :
      (self : TransportWriteState M C D)
      → IsValid self.super
      → 0 < self.threshold
      → 8 * self.threshold < 2 ^ 32
      → (is_overflow (done_status self).0 ≡ false)
        × IsReady (done_status self).1
        × Same (done_status self).1 self
        × ((done_status self).1.super ≡ self.super)
        × ((done_status self).0 ≡ (
            if ltb (done_status self).1.ignore (done_status self).1.super.length
            then transport_write_pending
            else transport_write_complete))
  unfolding done_status
  done_status-IsReady self v p s = elim (Bool-cases (ltb self.ignore self.super.length)) [
    | inl e ↦ rw e (
      refl,
      record { valid = v; ignorable = ground arith; positive = p; small = s },
      (refl, refl, refl),
      refl,
      rw e refl,
    )
    | inr e ↦ elim (Bool-cases (ltb self.super.length self.ignore)) [
      | inl e' ↦
          rw (e, e')
            (
              refl,
              record { valid = v; ignorable = omega arith; positive = p; small = s },
              (refl, refl, refl),
              refl,
              ground arith,
            )
      | inr e' ↦
          rw (e, e')
            (
              refl,
              record { valid = v; ignorable = ground arith; positive = p; small = s },
              (refl, refl, refl),
              refl,
              ground arith,
            )
    ]
  ]

  -- The length of what waits, where nothing went out or was lost.
  kept-length :
      (self : TransportWriteState M C D) (w : Written) (bytes lost : List ℕ)
      → IsValid self.super
      → IsValid w.state
      → w.sent ++ (pending w.state ++ lost) ≡ pending self.super ++ bytes
      → length w.sent ≡ 0
      → length lost ≡ 0
      → w.state.length ≡ self.super.length + length bytes
  kept-length self w bytes lost v u e s l = omega (
    arith,
    ap length e,
    length-append w.sent (pending w.state ++ lost),
    length-append (pending w.state) lost,
    length-append (pending self.super) bytes,
    length-pending w.state u,
    length-pending self.super v,
  )

  -- A result of ssh_write_data or ssh_write_flush that kept the stream.
  pub updated-Sends :
      (self : TransportWriteState M C D) (system : System) (w : Written) (bytes lost : List ℕ)
      → IsValid self.super × (0 < self.threshold) × (8 * self.threshold < 2 ^ 32)
      → self.ignore ≤ self.super.length + length bytes
      → IsValid w.state
      → w.sent ++ (pending w.state ++ lost) ≡ pending self.super ++ bytes
      → length w.sent ≡ taken system.attempts
      → (length lost == 0) ≡ not w.overflow
      → w.value ≡ (if w.overflow then 0 else taken system.attempts)
      → Sends true system self bytes (returns (updated self system.would_block w))
  unfolding update_status
  updated-Sends self system w bytes lost (v, p, s) i u e l q val = elim (Bool-cases w.overflow) [
    | inl full ↦
        let nothing : ltb 0 w.value ≡ false = ground (arith, val, full) in
        rw (nothing, full) (_, lost, refl, u, e, rw full at q, λ h. cc, (refl, refl, refl))
    | inr room ↦
        let value : w.value ≡ taken system.attempts = ground (arith, val, room) in
        let keeps : (length lost == 0) ≡ true = (rw room at q) in
        elim (Bool-cases (ltb 0 w.value)) [
          | inl some_sent ↦ rw some_sent (
              let (o, r, m, t, st) = done_status-IsReady (record self { super = w.state }) u p s in
              let took : ltb 0 (taken system.attempts) ≡ true = ground (arith, value) in
              (_, lost, refl, rw t u, rw t e, rw (o) keeps, λ h. (r, (l, rw took st)), m))
          | inr none_sent ↦
              let long : w.state.length ≡ self.super.length + length bytes =
                kept-length self w bytes lost v u e (ground arith) (ground arith) in
              let took : ltb 0 (taken system.attempts) ≡ false = ground (arith, value) in
              elim (Bool-cases system.would_block) [
                | inl b ↦
                    rw (none_sent, room, b)
                      (
                        _,
                        lost,
                        refl,
                        u,
                        e,
                        keeps,
                        λ h. (
                          record { valid = u; ignorable = omega arith; positive = p; small = s },
                          (l, rw took refl),
                        ),
                        (refl, refl, refl),
                      )
                | inr b ↦
                    rw (none_sent, room, b)
                      (
                        _,
                        lost,
                        refl,
                        u,
                        e,
                        keeps,
                        λ h. (
                          record { valid = u; ignorable = omega arith; positive = p; small = s },
                          (l, rw took refl),
                        ),
                        (refl, refl, refl),
                      )
              ]
        ]
  ]

  pub enqueue-Sends :
      (self : TransportWriteState M C D) (system : System) (bytes : List ℕ)
      → IsValid self.super × (0 < self.threshold) × (8 * self.threshold < 2 ^ 32)
      → self.ignore ≤ self.super.length + length bytes
      → length bytes + self.super.length < 2 ^ 32
      → Sends false system self bytes (enqueue self bytes)
  unfolding enqueue
  enqueue-Sends self system bytes (v, p, s) i small =
      let (t, e, u, waits, room) = ssh_write_enqueue_lem self.super bytes v small in
      elim (Bool-cases (leb (length bytes + self.super.length) (length self.super.buffer))) [
        | inl fits ↦
            let all : pending t ≡ pending self.super ++ bytes = (rw fits at waits) in
            rw (e, fits)
              (
                _,
                [],
                refl,
                u,
                append-nil (pending t) ∙ all,
                refl,
                λ h. (
                  record {
                    valid = u;
                    ignorable = omega (
                      arith,
                      ap length all,
                      length-append (pending self.super) bytes,
                      length-pending t u,
                      length-pending self.super v,
                    );
                    positive = p;
                    small = s;
                  },
                  (refl, refl),
                ),
                (refl, refl, refl),
              )
        | inr full ↦
            let all : pending t ≡ pending self.super = (rw full at waits) in
            let some_bytes : (length bytes == 0) ≡ false = let h = v.inside in ground arith in
            rw (e, full)
              (
                _,
                bytes,
                refl,
                u,
                ap {A = List ℕ} (λ xs. xs ++ bytes) all,
                some_bytes,
                λ h. cc,
                (refl, refl, refl),
              )
      ]

  pub mark_ignore-Sends :
      (tried : Bool) (system : System) (old : TransportWriteState M C D) (ignore : Bool) (l : ℕ)
      (bytes : List ℕ) (r : Run (Result M C D))
      → Sends tried system (mark_ignore old ignore l) bytes r
      → Sends tried system old bytes r
  unfolding mark_ignore
  mark_ignore-Sends tried system old true l bytes r h = h
  mark_ignore-Sends tried system old false l bytes r h = h

  -- The part to ignore after the flag is taken into account.
  pub mark_ignore-lem :
      (old : TransportWriteState M C D) (ignore : Bool) (l : ℕ)
      → IsReady old
      → l + old.super.length < 2 ^ 32
      → ((mark_ignore old ignore l).super ≡ old.super)
        × ((mark_ignore old ignore l).threshold ≡ old.threshold)
        × ((mark_ignore old ignore l).ignore ≡ (if ignore then old.ignore + l else 0))
  unfolding mark_ignore
  mark_ignore-lem old true l h small = let i = h.ignorable in (refl, refl, omega arith)
  mark_ignore-lem old false l h small = (refl, refl, refl)

  -- Where the size is selected: an attempt to write, or all of the data is kept.
  pub write_now-Sends :
      (self : TransportWriteState M C D) (bytes : List ℕ) (system : System)
      → IsValid self.super × (0 < self.threshold) × (8 * self.threshold < 2 ^ 32)
      → self.ignore ≤ self.super.length + length bytes
      → length bytes + self.super.length < 2 ^ 32
      → (self.super.length + length bytes < self.threshold
          → (self.ignore ≡ 0) ⊎ (self.ignore < self.super.length + length bytes))
      → Obeys system
          (select_write_size (add32 self.super.length (length bytes)) self.ignore self.threshold)
      → Sends (not (self.super.length + length bytes == 0)) system self bytes (
          then_run
            (ended (
              select_write_size
                (add32 self.super.length (length bytes))
                self.ignore
                self.threshold))
            (λ to_write.
              if to_write == 0
              then enqueue self bytes
              else then_run
                  (ssh_write_data self.super to_write bytes system.attempts)
                  (λ w. returns (updated self system.would_block w))))
  write_now-Sends self bytes system (v, p, s) i small ends obeys =
      let (n, e, below, positive) =
        select_write_size-ends (add32 self.super.length (length bytes)) self.ignore self.threshold
          (omega arith) p s (rw (sum) ends) in
      elim (Bool-cases (n == 0)) [
        | inl z ↦
            let nothing : not (self.super.length + length bytes == 0) ≡ false =
              ground (arith, sum) in
            rw (nothing, e, z) (enqueue-Sends self system bytes (v, p, s) i small)
        | inr z ↦
            let a : amount self.super n bytes ≡ n = rw z refl in
            let (w, lost, q, u, waits, l, over, val) =
              ssh_write_data-Keeps self.super n bytes system.attempts v small (rw a (ground arith))
                (rw a (omega arith)) (rw a (obeys n e)) in
            let something : not (self.super.length + length bytes == 0) ≡ true =
              ground (arith, sum) in
            rw (something, e, z, q)
              (updated-Sends self system w bytes lost (v, p, s) i u waits l over val)
      ]
    where
      sum : add32 self.super.length (length bytes) ≡ self.super.length + length bytes
      sum = omega arith
