-- ===== src/SshWrite/Data.antt =====
-- ssh_write_flush and ssh_write_data keep the bytes in order and lose none but those that overflow.
use lsh.Prelude.{
  ℕ, ◌+◌, ◌-◌, ◌≤◌, ◌<◌, ◌^◌, ◌≡◌, refl, ap, ◌∙◌, sym, false, ◌||◌, List, [], ◌++◌, append_assoc,
  if◌then◌else◌, ◌==◌, ltb, leb, length, take, drop, arith, length-take, length-drop, length-append,
  Option-cases, returns, Bool-cases, inl, inr, take-append-drop,
}
use lsh.SshWrite.{
  SshWriteState, consume, Attempts, result, write_max, ssh_write_flush, finish_write, amount,
  ssh_write_data,
}
use lsh.SshWrite.Buffer.{pending, IsValid, length-pending, consume-pending, consume-IsValid}
use lsh.SshWrite.Keeps.{taken, IsBounded, Keeps, finish_write-Keeps, failed-Keeps}

-- The branches of ssh_write_data by the bytes `k` that went out.
from_buffer-Keeps :
    (k : ℕ) (s : SshWriteState) (bytes : List ℕ)
    → 0 < k
    → k ≤ s.length
    → IsValid s
    → length bytes + s.length < 2 ^ 32
    → Keeps s bytes k (finish_write k (consume k s) bytes (take k (drop s.start s.buffer)))
from_buffer-Keeps k s bytes h within v small =
    finish_write-Keeps k s (consume k s) bytes bytes (take k (drop s.start s.buffer)) h
      (consume-IsValid s k v within) (omega (arith, v.inside, v.small))
      (sym (append_assoc (take k (drop s.start s.buffer)) (pending (consume k s)) bytes)
        ∙ ap {A = List ℕ} (λ xs. xs ++ bytes) (consume-pending s k v within))
      (omega (arith, v.inside, length-take k (drop s.start s.buffer), length-drop s.start s.buffer))

from_data-Keeps :
    (k : ℕ) (s : SshWriteState) (bytes : List ℕ)
    → 0 < k
    → k ≤ length bytes
    → s.length ≡ 0
    → IsValid s
    → length bytes < 2 ^ 32
    → Keeps s bytes k (finish_write k s (drop k bytes) (take k bytes))
from_data-Keeps k s bytes h within empty v small =
    finish_write-Keeps k s s bytes (drop k bytes) (take k bytes) h v
      (omega (arith, length-drop k bytes)) (rw empty (take-append-drop k bytes))
      (omega (arith, length-take k bytes))

from_both-Keeps :
    (k : ℕ) (s : SshWriteState) (bytes : List ℕ)
    → 0 < k
    → s.length ≤ k
    → k ≤ s.length + length bytes
    → IsValid s
    → length bytes < 2 ^ 32
    → Keeps s bytes k (
        finish_write k
          (record s { start = 0; length = 0 })
          (drop (k - s.length) bytes)
          (pending s ++ take (k - s.length) bytes))
from_both-Keeps k s bytes h above within v small =
    finish_write-Keeps k s (record s { start = 0; length = 0 }) bytes (drop (k - s.length) bytes)
      (pending s ++ take (k - s.length) bytes) h (record { inside = omega arith; small = v.small })
      (omega (arith, length-drop (k - s.length) bytes))
      (append_assoc (pending s) (take (k - s.length) bytes) (drop (k - s.length) bytes)
        ∙ ap {A = List ℕ} (λ xs. pending s ++ xs) (take-append-drop (k - s.length) bytes))
      (omega (
        arith,
        length-append (pending s) (take (k - s.length) bytes),
        length-pending s v,
        length-take (k - s.length) bytes,
      ))

-- ssh_write_data on a valid buffer, where write and writev take at most what they are given, returns
-- without a failed assertion. The bytes that went out, those that wait and those that are lost are,
-- in this order, the bytes that waited and the new ones; bytes are lost just on EOVERFLOW, and the
-- value returned is the number of bytes that went out, or 0 on EOVERFLOW.
pub ssh_write_data-Keeps :
    (s : SshWriteState) (to_write : ℕ) (bytes : List ℕ) (a : Attempts)
    → IsValid s
    → length bytes + s.length < 2 ^ 32
    → 0 < amount s to_write bytes
    → amount s to_write bytes ≤ s.length + length bytes
    → IsBounded (amount s to_write bytes) a
    → Keeps s bytes (taken a) (ssh_write_data s to_write bytes a)
unfolding ssh_write_data
ssh_write_data-Keeps s to_write bytes a v small some_bytes enough bounded =
    let positive : (amount s to_write bytes == 0) ≡ false = ground arith in
    elim (Option-cases (result a)) [
      | inl e ↦ rw (taken, positive, e) (failed-Keeps s bytes v small)
      | inr (k, e) ↦
          let (h, within) = (rw (IsBounded, e) at bounded) in
          rw (taken, positive, e) (branches k h within)
    ]
  where
    n : ℕ
    n = amount s to_write bytes

    branches :
        (k : ℕ)
        → 0 < k
        → k ≤ n
        → Keeps s bytes k (
            if leb n s.length
            then finish_write k (consume k s) bytes (take k (drop s.start s.buffer))
            else if s.length == 0
            then finish_write k s (drop k bytes) (take k bytes)
            else if ltb k s.length
            then finish_write k (consume k s) bytes (take k (drop s.start s.buffer))
            else finish_write k
                (record s { start = 0; length = 0 })
                (drop (k - s.length) bytes)
                (take s.length (drop s.start s.buffer) ++ take (k - s.length) bytes))
    branches k h within = elim (Bool-cases (leb n s.length)) [
      | inl e ↦ rw e (from_buffer-Keeps k s bytes h (ground arith) v small)
      | inr e ↦ elim (Bool-cases (s.length == 0)) [
        | inl e' ↦
            rw (e, e') (from_data-Keeps k s bytes h (ground arith) (ground arith) v (omega arith))
        | inr e' ↦ elim (Bool-cases (ltb k s.length)) [
          | inl e'' ↦ rw (e, e', e'') (from_buffer-Keeps k s bytes h (ground arith) v small)
          | inr e'' ↦
              rw (e, e', e'')
                (from_both-Keeps k s bytes h (ground arith) (omega arith) v (omega arith))
        ]
      ]
    ]

-- ssh_write_flush, of bytes that wait, sends some from the front and keeps the others; on an error
-- nothing changes.
pub ssh_write_flush_lem :
    (s : SshWriteState) (to_write : ℕ) (a : Attempts)
    → IsValid s
    → 0 < s.length
    → to_write ≤ s.length
    → IsBounded
        (if to_write == 0
          then (if ltb s.length write_max then s.length else write_max)
          else to_write)
        a
    → (t : SshWriteState) × (sent : List ℕ) × (ssh_write_flush s to_write a
        ≡ returns (taken a, t, sent))
      × IsValid t
      × (sent ++ pending t ≡ pending s)
      × (length sent ≡ taken a)
unfolding ssh_write_flush
ssh_write_flush_lem s to_write a v some_bytes inside bounded = elim (Option-cases (result a)) [
  | inl e ↦ (s, [], rw (taken, asserted, e) refl, v, refl, rw (taken, e) refl)
  | inr (k, e) ↦
      let (h, within) = (rw (IsBounded, e) at bounded) in
      let below : k ≤ s.length = ground arith in
      (
        consume k s,
        take k (drop s.start s.buffer),
        rw (taken, asserted, e) refl,
        consume-IsValid s k v below,
        consume-pending s k v below,
        rw (taken, e)
            (omega (
              arith,
              v.inside,
              length-take k (drop s.start s.buffer),
              length-drop s.start s.buffer,
            )),
      )
]
  where
    n : ℕ
    n = if to_write == 0 then (if ltb s.length write_max then s.length else write_max) else to_write

    asserted : (n == 0 || ltb s.length n) ≡ false
    asserted = ground arith
