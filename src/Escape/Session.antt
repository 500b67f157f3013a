-- ===== src/Escape/Session.antt =====
-- client_escape_process, and the loop that calls it, do what the machine does byte by byte.
use lsh.Prelude.{
  ℕ, zero, suc, ◌≤◌, ◌<◌, ◌≡◌, refl, ap, ◌∙◌, sym, true, false, List, [], ◌∷◌, ◌++◌, if◌then◌else◌,
  ◌==◌, ltb, length, take, drop, returns, arith, Bool-cases, inl, inr, take-append-drop,
  length-drop,
}
use lsh.Escape.{
  EscapeState, got_none, got_newline, got_escape, EscapeInfo, escape_dispatch, Processed,
  dispatched, quiet, scan, client_escape_process, Typed, read_loop,
}
use lsh.Escape.Machine.{and_typed, read_bytes, read_bytes-append, Does, scan-Does}

escape-Does :
    (info : EscapeInfo) (x : ℕ) (r : List ℕ)
    → Does info got_escape 0 (x ∷ r) (dispatched 0 1 (escape_dispatch info x))
unfolding escape_dispatch
escape-Does info x r = record {
  copied = (escape_dispatch info x).0;
  passed = 1;
  copy_is = refl;
  done_is = refl;
  inside = omega arith;
  progress = λ k. omega arith;
  trace = ground arith;
}

-- Behind a newline, a byte that is no escape character is read as anywhere.
newline-first :
    (info : EscapeInfo) (x : ℕ) (r : List ℕ)
    → (x == info.escape) ≡ false
    → read_bytes info got_newline (x ∷ r) ≡ read_bytes info got_none (x ∷ r)
newline-first info x r h = rw h refl

newline-Does :
    (info : EscapeInfo) (x : ℕ) (r : List ℕ) (p : Processed)
    → (x == info.escape) ≡ false
    → Does info got_none 0 (x ∷ r) p
    → Does info got_newline 0 (x ∷ r) p
newline-Does info x r p h d = record {
  copied = d.copied;
  passed = d.passed;
  copy_is = d.copy_is;
  done_is = d.done_is;
  inside = d.inside;
  progress = d.progress;
  trace = step d.passed (d.progress (omega arith)) d.trace;
}
  where
    step :
        (k : ℕ)
        → 0 < k
        → read_bytes info got_none (take k (x ∷ r))
          ≡ record { state = p.state; sent = take d.copied (x ∷ r); calls = p.calls }
        → read_bytes info got_newline (take k (x ∷ r))
          ≡ record { state = p.state; sent = take d.copied (x ∷ r); calls = p.calls }
    step zero h' e = absurd (omega arith)
    step (suc k) h' e = newline-first info x (take k r) h ∙ e

quote-Does :
    (info : EscapeInfo) (x y : ℕ) (r : List ℕ)
    → (x == info.escape) ≡ true
    → Does info got_newline 0 (x ∷ y ∷ r) (dispatched 0 2 (escape_dispatch info y))
unfolding escape_dispatch
quote-Does info x y r h = record {
  copied = (escape_dispatch info y).0;
  passed = 2;
  copy_is = refl;
  done_is = refl;
  inside = omega arith;
  progress = λ k. omega arith;
  trace = ground arith;
}

process-Does :
    (info : EscapeInfo) (state : EscapeState) (x : ℕ) (r : List ℕ)
    → (p : Processed) × (client_escape_process info state (x ∷ r) ≡ returns p)
      × Does info state 0 (x ∷ r) p
unfolding client_escape_process
process-Does info got_none x r = (scan info 0 (x ∷ r), refl, scan-Does info 0 (x ∷ r))
process-Does info got_escape x r =
    (dispatched 0 1 (escape_dispatch info x), refl, escape-Does info x r)
process-Does info got_newline x [] = elim (Bool-cases (x == info.escape)) [
  | inl h ↦ (
    quiet got_escape 0 1,
    rw h refl,
    record {
      copied = 0;
      passed = 1;
      copy_is = refl;
      done_is = refl;
      inside = omega arith;
      progress = λ k. omega arith;
      trace = rw h refl;
    },
  )
  | inr h ↦ (
    scan info 0 (x ∷ []),
    rw h refl,
    newline-Does info x [] (scan info 0 (x ∷ [])) h (scan-Does info 0 (x ∷ [])),
  )
]
process-Does info got_newline x (y ∷ r) = elim (Bool-cases (x == info.escape)) [
  | inl h ↦ (dispatched 0 2 (escape_dispatch info y), rw h refl, quote-Does info x y r h)
  | inr h ↦ (
    scan info 0 (x ∷ y ∷ r),
    rw h refl,
    newline-Does info x (y ∷ r) (scan info 0 (x ∷ y ∷ r)) h (scan-Does info 0 (x ∷ y ∷ r)),
  )
]

-- One call on input that is not empty returns: it passes at least one byte and at most all of them,
-- and for the bytes that it passes, the new state, the bytes to copy, which are a prefix of the
-- input, and the callbacks are those of the machine.
pub client_escape_process_lem :
    (info : EscapeInfo) (state : EscapeState) (r : List ℕ)
    → 0 < length r
    → (p : Processed) × (client_escape_process info state r ≡ returns p)
      × (0 < p.done)
      × (p.done ≤ length r)
      × (read_bytes info state (take p.done r)
          ≡ record { state = p.state; sent = take p.copy r; calls = p.calls })
client_escape_process_lem info state [] h = absurd (omega arith)
client_escape_process_lem info state (x ∷ r) h =
    let (p, e, d) = process-Does info state x r in
    let copy : p.copy ≡ d.copied = omega (arith, d.copy_is) in
    let done : p.done ≡ d.passed = omega (arith, d.done_is) in
    (
      p,
      e,
      omega (arith, done, d.progress (omega arith)),
      omega (arith, done, d.inside),
      rw (copy, done) (d.trace),
    )

copy-take : (n : ℕ) (r : List ℕ) → (if ltb 0 n then take n r else []) ≡ take n r
copy-take zero r = refl
copy-take (suc n) r = ground arith

-- The bytes of a call, and then the rest.
after_call :
    (info : EscapeInfo) (state : EscapeState) (r : List ℕ) (p : Processed)
    → read_bytes info state (take p.done r)
      ≡ record { state = p.state; sent = take p.copy r; calls = p.calls }
    → read_bytes info state r ≡ record {
      state = (read_bytes info p.state (drop p.done r)).state;
      sent =
          (if ltb 0 p.copy then take p.copy r else [])
          ++ (read_bytes info p.state (drop p.done r)).sent;
      calls = p.calls ++ (read_bytes info p.state (drop p.done r)).calls;
    }
after_call info state r p trace =
    ap {A = List ℕ} (read_bytes info state) (sym (take-append-drop p.done r))
    ∙ read_bytes-append info state (take p.done r) (drop p.done r)
    ∙ ap {A = Typed} (λ t. and_typed t λ s. read_bytes info s (drop p.done r)) trace
    ∙ ap {A = List ℕ}
        (λ sent. record {
          state = (read_bytes info p.state (drop p.done r)).state;
          sent = sent ++ (read_bytes info p.state (drop p.done r)).sent;
          calls = p.calls ++ (read_bytes info p.state (drop p.done r)).calls;
        })
        (sym (copy-take p.copy r))

-- The loop of client_session.c over all the input, with fuel for one call for each byte, which is enough:
-- it sends the bytes, runs the callbacks, and ends in the state, that the machine does.
pub read_loop-read_bytes :
    (fuel : ℕ) (info : EscapeInfo) (state : EscapeState) (r : List ℕ)
    → length r ≤ fuel
    → read_loop fuel info state r ≡ returns (read_bytes info state r)
unfolding read_loop
read_loop-read_bytes zero info state [] h = refl
read_loop-read_bytes (suc fuel) info state [] h = refl
read_loop-read_bytes zero info state (x ∷ r) h = absurd (omega arith)
read_loop-read_bytes (suc fuel) info state (x ∷ r) h =
    let (p, e, some_done, inside, trace) =
      client_escape_process_lem info state (x ∷ r) (omega arith) in
    rw
      (
        e,
        read_loop-read_bytes fuel info p.state (drop p.done (x ∷ r))
            (omega (arith, length-drop p.done (x ∷ r))),
      )
      (ap {A = Typed} returns (sym (after_call info state (x ∷ r) p trace)))
