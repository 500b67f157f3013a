-- ===== src/Parse/Refine.antt =====
-- What each parser of parse.c does on the bytes that are left, refusals included.
use lsh.Prelude.{
  ℕ, ◌<◌, ◌≤◌, ◌≡◌, refl, ◌∙◌, Bool, true, false, List, [], ◌∷◌, Option, none, some, arith, length,
  take, drop, ltb, ◌==◌, Bool-cases, inl, inr, if◌then◌else◌, not, ◌&&◌, add32, take-length,
  drop-length,
}
use lsh.Parse.{
  SimpleBuffer, failed, ◌>>=◌, pure, left, simple_buffer_init, read_uint32, parse_uint32,
  parse_octets, parse_string, parse_sub_buffer, parse_uint8, parse_boolean, parse_bignum,
  parse_atom, parse_uint16, parse_string16, parse_rest, parse_eod,
}
use lsh.Parse.Cursor.{
  View, Spec, Refines, and_then, left-View, here-View, take-View, advance-View, >>=-Refines,
}

-- Nothing is read unless all `n` bytes are there.
abbrev pub octets : ℕ → Spec (List ℕ)
octets n r = if ltb (length r) n then none else some (take n r, drop n r)

abbrev pub uint8 : Spec ℕ
uint8 [] = none
uint8 (x ∷ r) = some (x, r)

abbrev pub uint16 : (ℕ → ℕ → ℕ) → Spec ℕ
uint16 read_uint16 (x0 ∷ x1 ∷ r) = some (read_uint16 x0 x1, r)
uint16 read_uint16 _ = none

abbrev pub uint32 : Spec ℕ
uint32 (x0 ∷ x1 ∷ x2 ∷ x3 ∷ r) = some (read_uint32 x0 x1 x2 x3, r)
uint32 _ = none

abbrev pub string : Spec (List ℕ)
string = and_then uint32 octets

abbrev pub string16 : (ℕ → ℕ → ℕ) → Spec (List ℕ)
string16 read_uint16 = and_then (uint16 read_uint16) octets

-- A string that passes the test `f`, as the value that `f` makes of it.
abbrev pub checked : {N : Type 0} → (List ℕ → Option N) → Spec N
checked f = and_then string λ s r. elim (f s) [ none ↦ none | some n ↦ some (n, r) ]

pub parse_octets-Refines : (n : ℕ) → Refines (parse_octets n) (octets n)
unfolding parse_octets
parse_octets-Refines n b r v = elim (Bool-cases (ltb (length r) n)) [
  | inl e ↦ rw (left-View v, e) tt
  | inr e ↦ rw (left-View v, e) (take-View v n (ground arith), advance-View v n (ground arith))
]

-- A test of the bytes left, decided by the list's length.
enough :
    {b : SimpleBuffer} {r : List ℕ} → View b r → (n : ℕ) → n ≤ length r → ltb (left b) n ≡ false
enough v n h = rw (left-View v) (ground arith)

short : {b : SimpleBuffer} {r : List ℕ} → View b r → (n : ℕ) → length r < n → ltb (left b) n ≡ true
short v n h = rw (left-View v) (ground arith)

nonempty : {b : SimpleBuffer} {r : List ℕ} → View b r → 0 < length r → (left b == 0) ≡ false
nonempty v h = rw (left-View v) (ground arith)

pub parse_uint8-Refines : Refines parse_uint8 uint8
unfolding parse_uint8
parse_uint8-Refines b [] v = rw (left-View v) tt
parse_uint8-Refines b (x ∷ r) v =
    rw (nonempty v (omega arith)) (here-View v 0 (omega arith), advance-View v 1 (omega arith))

pub parse_boolean-Refines : Refines parse_boolean uint8
unfolding parse_boolean
parse_boolean-Refines b [] v = rw (left-View v) tt
parse_boolean-Refines b (x ∷ r) v =
    rw (nonempty v (omega arith)) (here-View v 0 (omega arith), advance-View v 1 (omega arith))

pub parse_uint32-Refines : Refines parse_uint32 uint32
unfolding parse_uint32
parse_uint32-Refines b (x0 ∷ x1 ∷ x2 ∷ x3 ∷ r) v = rw (enough v 4 (omega arith)) (
  rw (
    here-View v 0 (omega arith),
    here-View v 1 (omega arith),
    here-View v 2 (omega arith),
    here-View v 3 (omega arith),
  ),
  advance-View v 4 (omega arith),
)
parse_uint32-Refines b _ v = rw (short v 4 (omega arith)) tt

parse_uint16-Refines : (f : ℕ → ℕ → ℕ) → Refines (parse_uint16 f) (uint16 f)
unfolding parse_uint16
parse_uint16-Refines f b (x0 ∷ x1 ∷ r) v =
    rw (enough v 2 (omega arith)) (
      rw (here-View v 0 (omega arith), here-View v 1 (omega arith)),
      advance-View v 2 (omega arith),
    )
parse_uint16-Refines f b _ v = rw (short v 2 (omega arith)) tt

pub parse_string-Refines : Refines parse_string string
unfolding parse_string
parse_string-Refines =
    >>=-Refines parse_uint32 uint32 parse_octets octets parse_uint32-Refines parse_octets-Refines

parse_string16-Refines : (f : ℕ → ℕ → ℕ) → Refines (parse_string16 f) (string16 f)
unfolding parse_string16
parse_string16-Refines f =
    >>=-Refines (parse_uint16 f) (uint16 f) parse_octets octets (parse_uint16-Refines f)
      parse_octets-Refines

tested-Refines :
    {N : Type 0} (refused : List ℕ → Bool) (value : List ℕ → N)
    → Refines
        (parse_string >>= λ s. if refused s then failed else pure (value s))
        (checked λ s. if refused s then none else some (value s))
tested-Refines refused value =
    >>=-Refines parse_string string _ _ parse_string-Refines
      λ s b r v. elim (Bool-cases (refused s)) [ inl e ↦ rw e tt | inr e ↦ rw e (refl, v) ]

parse_atom-Refines :
    (lookup_atom : List ℕ → ℕ)
    → Refines
        (parse_atom lookup_atom)
        (checked λ s. if ltb 64 (length s) then none else some (lookup_atom s))
unfolding parse_atom
parse_atom-Refines lookup_atom = tested-Refines (λ s. ltb 64 (length s)) lookup_atom

-- On every packet parse_bignum reads the string at its front as a number, and refuses it if the limit
-- is not 0 and the string has more bytes than the limit and one.
parse_bignum-Refines :
    {N : Type 0} (set_str_256_s : List ℕ → N) (limit : ℕ)
    → Refines (parse_bignum set_str_256_s limit) (
        checked λ s.
          if not (limit == 0) && ltb (add32 limit 1) (length s)
          then none
          else some (set_str_256_s s))
unfolding parse_bignum
parse_bignum-Refines set_str_256_s limit =
    tested-Refines (λ s. not (limit == 0) && ltb (add32 limit 1) (length s)) set_str_256_s

-- The rest is all that is left, and nothing is left behind it.
parse_rest-Refines : Refines parse_rest (λ r. some (r, []))
unfolding parse_rest
parse_rest-Refines b r v = rw (left-View v) (
  take-View v (length r) (omega arith) ∙ take-length r,
  rw (drop-length r) at (advance-View v (length r) (omega arith)),
)

-- On every packet parse_sub_buffer gives a fresh cursor over the string at its front, and refuses a
-- packet that does not hold all of that string.
pub parse_sub_buffer-Refines :
    Refines parse_sub_buffer (and_then string λ s r. some (simple_buffer_init (length s) s, r))
unfolding parse_sub_buffer
parse_sub_buffer-Refines =
    >>=-Refines parse_string string _ _ parse_string-Refines λ s b r v. (refl, v)

pub parse_eod-View : {b : SimpleBuffer} {r : List ℕ} → View b r → parse_eod b ≡ (length r == 0)
unfolding parse_eod
parse_eod-View v = rw (left-View v)
