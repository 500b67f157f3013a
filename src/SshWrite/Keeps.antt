-- ===== src/SshWrite/Keeps.antt =====
-- What ssh_write_data does with the data that the descriptor has not taken.
use lsh.Prelude.{
  ℕ, ◌+◌, ◌≤◌, ◌<◌, ◌^◌, ◌≡◌, refl, ap, ◌∙◌, true, false, not, List, [], ◌∷◌, ◌++◌, append-nil,
  if◌then◌else◌, ◌==◌, leb, length, arith, none, some, Run, returns, Bool-cases, inl, inr,
}
use lsh.SshWrite.{SshWriteState, Attempts, result, Written, enqueue_rest, finish_write}
use lsh.SshWrite.Buffer.{pending, IsValid}
use lsh.SshWrite.Enqueue.{ssh_write_enqueue_lem}

-- The bytes that the descriptor took.
abbrev pub taken : Attempts → ℕ
taken a = elim (result a) [ none ↦ 0 | some k ↦ k ]

-- write and writev take at least one and at most `n` bytes, or fail.
abbrev pub IsBounded : ℕ → Attempts → Type 0
IsBounded n a = elim (result a) [ none ↦ Unit {0} | some k ↦ (0 < k) × (k ≤ n) ]

-- The run returns: `sent` went out, and then wait the bytes of `s` and the new ones, but those lost.
abbrev pub Ends : ℕ → SshWriteState → List ℕ → List ℕ → Run Written → Type 0
Ends value s bytes sent m =
    (w : Written) × (lost : List ℕ) × (m ≡ returns w)
    × IsValid w.state
    × (w.sent ≡ sent)
    × (pending w.state ++ lost ≡ pending s ++ bytes)
    × ((length lost == 0) ≡ not w.overflow)
    × (w.value ≡ (if w.overflow then 0 else value))

enqueue_rest-Ends :
    (value : ℕ) (s : SshWriteState) (bytes sent : List ℕ)
    → IsValid s
    → length bytes + s.length < 2 ^ 32
    → Ends value s bytes sent (enqueue_rest value s bytes sent)
unfolding enqueue_rest
enqueue_rest-Ends value s [] sent v small = (
  record { value = value; overflow = false; state = s; sent = sent },
  [],
  refl,
  v,
  refl,
  refl,
  refl,
  refl,
)
enqueue_rest-Ends value s (x ∷ r) sent v small =
    let (t, e, valid, waits, size) = ssh_write_enqueue_lem s (x ∷ r) v small in
    let some_bytes : (length (x ∷ r) == 0) ≡ false = ground arith in
    elim (Bool-cases (leb (length (x ∷ r) + s.length) (length s.buffer))) [
      | inl fits ↦ (
        record { value = value; overflow = false; state = t; sent = sent },
        [],
        rw (some_bytes, e, fits) refl,
        valid,
        refl,
        append-nil (pending t) ∙ (rw fits at waits),
        refl,
        refl,
      )
      | inr full ↦ (
        record { value = 0; overflow = true; state = t; sent = sent },
        x ∷ r,
        rw (some_bytes, e, full) refl,
        valid,
        refl,
        ap {A = List ℕ} (λ xs. xs ++ (x ∷ r)) (rw full at waits),
        ground arith,
        refl,
      )
    ]

-- Some bytes at the front have gone out before the rest is kept.
abbrev pub Keeps : SshWriteState → List ℕ → ℕ → Run Written → Type 0
Keeps s bytes k m =
    (w : Written) × (lost : List ℕ) × (m ≡ returns w)
    × IsValid w.state
    × (w.sent ++ (pending w.state ++ lost) ≡ pending s ++ bytes)
    × (length w.sent ≡ k)
    × ((length lost == 0) ≡ not w.overflow)
    × (w.value ≡ (if w.overflow then 0 else k))

pub finish_write-Keeps :
    (k : ℕ) (s s' : SshWriteState) (bytes bytes' sent : List ℕ)
    → 0 < k
    → IsValid s'
    → length bytes' + s'.length < 2 ^ 32
    → sent ++ (pending s' ++ bytes') ≡ pending s ++ bytes
    → length sent ≡ k
    → Keeps s bytes k (finish_write k s' bytes' sent)
unfolding finish_write
finish_write-Keeps k s s' bytes bytes' sent h v small whole size =
    let (w, lost, e, valid, out, waits, losing, value) =
      enqueue_rest-Ends k s' bytes' sent v small in
    let positive : (k == 0) ≡ false = ground arith in
    (
      w,
      lost,
      rw positive e,
      valid,
      rw (out, waits) whole,
      ap {A = List ℕ} length out ∙ size,
      losing,
      value,
    )

pub failed-Keeps :
    (s : SshWriteState) (bytes : List ℕ)
    → IsValid s
    → length bytes + s.length < 2 ^ 32
    → Keeps s bytes 0 (enqueue_rest 0 s bytes [])
failed-Keeps s bytes v small =
    let (w, lost, e, valid, out, waits, losing, value) = enqueue_rest-Ends 0 s bytes [] v small in
    (w, lost, e, valid, rw (out, waits) refl, ap {A = List ℕ} length out, losing, value)
