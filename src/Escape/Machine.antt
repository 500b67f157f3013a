-- ===== src/Escape/Machine.antt =====
-- The escape sequences as a machine that reads one byte at a time.
use lsh.Prelude.{
  ℕ, zero, suc, ◌+◌, ◌≤◌, ◌<◌, ◌≡◌, refl, ap, ◌∙◌, true, false, ◌&&◌, List, [], ◌∷◌, ◌++◌,
  if◌then◌else◌, ◌==◌, length, take, arith, Bool-cases, inl, inr, append_assoc,
}
use lsh.Escape.{
  EscapeState, got_none, got_newline, got_escape, EscapeInfo, callback, not_defined,
  escape_dispatch, newlinep, Processed, scan, Typed,
}

-- A byte at the start of no sequence is sent.
abbrev pub plain : ℕ → Typed
plain b = record { state = if newlinep b then got_newline else got_none; sent = b ∷ []; calls = [] }

-- The escape character counts behind a newline only; the byte behind it is a command, or the
-- escape character itself, which is sent.
abbrev pub read_byte : EscapeInfo → EscapeState → ℕ → Typed
read_byte info got_none b = plain b
read_byte info got_newline b =
    if b == info.escape then record { state = got_escape; sent = []; calls = [] } else plain b
read_byte info got_escape b =
    if b == info.escape then record { state = got_none; sent = b ∷ []; calls = [] } else record {
      state = got_none;
      sent = [];
      calls = (if info.dispatch b then callback b else not_defined b) ∷ [];
    }

abbrev pub and_typed : Typed → (EscapeState → Typed) → Typed
and_typed t f = record {
  state = (f t.state).state;
  sent = t.sent ++ (f t.state).sent;
  calls = t.calls ++ (f t.state).calls;
}

abbrev pub read_bytes : EscapeInfo → EscapeState → List ℕ → Typed
read_bytes info state [] = record { state = state; sent = []; calls = [] }
read_bytes info state (b ∷ r) = and_typed (read_byte info state b) λ s. read_bytes info s r

pub read_bytes-append :
    (info : EscapeInfo) (state : EscapeState) (xs ys : List ℕ)
    → read_bytes info state (xs ++ ys)
      ≡ and_typed (read_bytes info state xs) λ s. read_bytes info s ys
read_bytes-append info state [] ys = refl
read_bytes-append info state (x ∷ xs) ys =
    let rest = read_bytes-append info (read_byte info state x).state xs ys in
    rw
      (
        rest,
        append_assoc (read_byte info state x).sent
            (read_bytes info (read_byte info state x).state xs).sent
            (read_bytes info (read_bytes info (read_byte info state x).state xs).state ys).sent,
        append_assoc (read_byte info state x).calls
            (read_bytes info (read_byte info state x).state xs).calls
            (read_bytes info (read_bytes info (read_byte info state x).state xs).state ys).calls,
      )
      refl

-- What one call does to the bytes `r`, of which it has passed `i` before.
pub record Does (info : EscapeInfo) (state : EscapeState) (i : ℕ) (r : List ℕ) (p : Processed)
    : Type 0 where
  pub copied : ℕ
  pub passed : ℕ
  pub copy_is : p.copy ≡ i + copied
  pub done_is : p.done ≡ i + passed
  pub inside : passed ≤ length r
  pub progress : 0 < length r → 0 < passed
  pub trace :
      read_bytes info state (take passed r)
      ≡ record { state = p.state; sent = take copied r; calls = p.calls }

-- Behind a byte that starts no sequence, the machine is as before.
plain-first :
    (info : EscapeInfo) (x y : ℕ) (r : List ℕ)
    → (newlinep x && y == info.escape) ≡ false
    → read_bytes info (plain x).state (y ∷ r) ≡ read_bytes info got_none (y ∷ r)
plain-first info x y r h = elim (Bool-cases (newlinep x)) [
  | inl e ↦ let q : (y == info.escape) ≡ false = ground arith in rw (e, q) refl
  | inr e ↦ rw e refl
]

Does-cons :
    (info : EscapeInfo) (i x y : ℕ) (r : List ℕ) (p : Processed)
    → (newlinep x && y == info.escape) ≡ false
    → Does info got_none (i + 1) (y ∷ r) p
    → Does info got_none i (x ∷ y ∷ r) p
Does-cons info i x y r p h d = record {
  copied = suc d.copied;
  passed = suc d.passed;
  copy_is = omega (arith, d.copy_is);
  done_is = omega (arith, d.done_is);
  inside = omega (arith, d.inside);
  progress = λ _. omega arith;
  trace = step d.passed (d.progress (omega arith)) d.trace;
}
  where
    step :
        (k : ℕ)
        → 0 < k
        → read_bytes info got_none (take k (y ∷ r))
          ≡ record { state = p.state; sent = take d.copied (y ∷ r); calls = p.calls }
        → read_bytes info got_none (x ∷ take k (y ∷ r))
          ≡ record { state = p.state; sent = x ∷ take d.copied (y ∷ r); calls = p.calls }
    step zero h' e = absurd (omega arith)
    step (suc k) h' e =
        ap (λ t. record { state = t.state; sent = x ∷ t.sent; calls = t.calls })
          (plain-first info x y (take k r) h ∙ e)

scan-one : (info : EscapeInfo) (i x : ℕ) → Does info got_none i (x ∷ []) (scan info i (x ∷ []))
unfolding scan
scan-one info i x = record {
  copied = 1;
  passed = 1;
  copy_is = ground arith;
  done_is = ground arith;
  inside = omega arith;
  progress = λ h. omega arith;
  trace = ground arith;
}

sequence :
    (info : EscapeInfo) (x y z : ℕ) (r : List ℕ)
    → (newlinep x && y == info.escape) ≡ true
    → read_bytes info got_none (x ∷ y ∷ z ∷ []) ≡ record {
      state = got_none;
      sent = take (1 + (escape_dispatch info z).0) (x ∷ y ∷ z ∷ r);
      calls = (escape_dispatch info z).1;
    }
unfolding escape_dispatch
sequence info x y z r h = ground arith

pub scan-Does : (info : EscapeInfo) (i : ℕ) (r : List ℕ) → Does info got_none i r (scan info i r)
unfolding scan
scan-Does info i [] = record {
  copied = 0;
  passed = 0;
  copy_is = omega arith;
  done_is = omega arith;
  inside = omega arith;
  progress = λ h. h;
  trace = refl;
}
scan-Does info i (x ∷ []) = scan-one info i x
scan-Does info i (x ∷ y ∷ []) = elim (Bool-cases (newlinep x && y == info.escape)) [
  | inl h ↦ rw h (record {
    copied = 1;
    passed = 2;
    copy_is = refl;
    done_is = refl;
    inside = omega arith;
    progress = λ k. omega arith;
    trace = ground arith;
  })
  | inr h ↦ rw h (Does-cons info i x y [] _ h (scan-Does info (i + 1) (y ∷ [])))
]
scan-Does info i (x ∷ y ∷ z ∷ r) = elim (Bool-cases (newlinep x && y == info.escape)) [
  | inl h ↦ rw h (record {
    copied = 1 + (escape_dispatch info z).0;
    passed = 3;
    copy_is = omega arith;
    done_is = refl;
    inside = omega arith;
    progress = λ k. omega arith;
    trace = sequence info x y z r h;
  })
  | inr h ↦ rw h (Does-cons info i x y (z ∷ r) _ h (scan-Does info (i + 1) (y ∷ z ∷ r)))
]
