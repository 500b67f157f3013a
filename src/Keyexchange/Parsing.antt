-- ===== src/Keyexchange/Parsing.antt =====
-- src/keyexchange.c: parse_kexinit on any packet.
use lsh.Prelude.{
  ℕ, zero, suc, ◌<◌, ◌^◌, ◌≡◌, refl, Bool, true, false, not, ◌||◌, List, [], ◌∷◌, Option, none,
  some, if◌then◌else◌, ◌==◌, length, Run, aborted, returns, arith, Bool-cases, inl, inr,
}
use lsh.Parse.{
  SimpleBuffer, Parsed, failed, parsed, simple_buffer_init, parse_uint8, parse_boolean,
  parse_uint32,
}
use lsh.Parse.Cursor.{View, Spec, Agrees, Refines, and_then, >>=-Refines, simple_buffer_init-View}
use lsh.Parse.Refine.{
  octets, uint8, uint32, parse_uint8-Refines, parse_octets-Refines, parse_boolean-Refines,
  parse_uint32-Refines, parse_eod-View,
}
use lsh.Parse.Atoms.{parse_atom_list}
use lsh.Parse.Atoms.Whole.{AgreesRun, atom_list, parse_atom_list-Refines}
use lsh.Keyexchange.{
  Kexinit, bind_run, parse_lists, parse_cookie, kexinit_of, kexinit_end, parse_trailer,
  parse_kexinit_at, value_of, parse_kexinit,
}

-- The message on lists of bytes.
abbrev pub cookie_spec : Spec (List ℕ)
cookie_spec = and_then uint8 λ msg_number. if not (msg_number == 20) then (λ r. none) else octets 16

abbrev pub lists_spec : (List ℕ → ℕ) → ℕ → Spec (List (List ℕ))
lists_spec lookup_atom zero r = some ([], r)
lists_spec lookup_atom (suc count) r =
    and_then (atom_list lookup_atom 500)
      (λ l. and_then (lists_spec lookup_atom count) (λ lists s. some (l ∷ lists, s))) r

abbrev pub end_spec : Kexinit → ℕ → Spec Kexinit
end_spec kex reserved r = if not (reserved == 0) || not (length r == 0) then none else some (kex, r)

abbrev pub trailer_spec : List ℕ → List (List ℕ) → Spec Kexinit
trailer_spec cookie lists =
    and_then uint8
      λ follows. and_then uint32 λ reserved. end_spec (kexinit_of cookie lists follows) reserved

abbrev pub kexinit_spec : (List ℕ → ℕ) → Spec Kexinit
kexinit_spec lookup_atom =
    and_then cookie_spec
      λ cookie. and_then (lists_spec lookup_atom 10) λ lists. trailer_spec cookie lists

abbrev RunRefines : {A : Type 0} → (SimpleBuffer → Run (Parsed A)) → Spec A → Type 0
RunRefines p q = (b : SimpleBuffer) (r : List ℕ) → View b r → AgreesRun (p b) (q r)

module _ {A B : Type 0} where
  bind-AgreesRun :
      (x : Run (Parsed A)) (y : Option (A × List ℕ)) (f : A → SimpleBuffer → Run (Parsed B))
      (g : A → Spec B)
      → AgreesRun x y
      → ((a : A) → RunRefines (f a) (g a))
      → AgreesRun (bind_run x f) (elim y [ none ↦ none | some (a, s) ↦ g a s ])
  bind-AgreesRun (returns (failed c)) none f g h k = tt
  bind-AgreesRun (returns (parsed a c)) (some (d, s)) f g (e, w) k = rw (← e) (k a c s w)
  bind-AgreesRun (returns (failed c)) (some y) f g h k = absurd h
  bind-AgreesRun (returns (parsed a c)) none f g h k = absurd h
  bind-AgreesRun aborted y f g h k = absurd h

  bind_run-Refines :
      (p : SimpleBuffer → Run (Parsed A)) (q : Spec A) (f : A → SimpleBuffer → Run (Parsed B))
      (g : A → Spec B)
      → RunRefines p q
      → ((a : A) → RunRefines (f a) (g a))
      → RunRefines (λ b. bind_run (p b) f) (and_then q g)
  bind_run-Refines p q f g hp hf b r v = bind-AgreesRun (p b) (q r) f g (hp b r v) hf

parse_cookie-Refines : Refines parse_cookie cookie_spec
unfolding parse_cookie
parse_cookie-Refines = >>=-Refines parse_uint8 uint8 _ _ parse_uint8-Refines λ msg_number.
    elim (Bool-cases (msg_number == 20)) [
      | inl e ↦ λ b r v. rw e (parse_octets-Refines 16 b r v)
      | inr e ↦ λ b r v. rw e tt
    ]

parse_lists-Refines :
    (lookup_atom : List ℕ → ℕ) (count : ℕ)
    → RunRefines (parse_lists lookup_atom count) (lists_spec lookup_atom count)
unfolding parse_lists
parse_lists-Refines f zero b r v = (refl, v)
parse_lists-Refines f (suc count) b r v =
    bind_run-Refines (parse_atom_list f 500) (atom_list f 500) _ _
      (λ c s w. parse_atom_list-Refines f 500 c s w (omega arith))
      (λ l.
        bind_run-Refines (parse_lists f count) (lists_spec f count) _ _
          (parse_lists-Refines f count) (λ lists c s w. (refl, w)))
      b r v

kexinit_end-Refines :
    (kex : Kexinit) (reserved : ℕ) → Refines (kexinit_end kex reserved) (end_spec kex reserved)
kexinit_end-Refines kex reserved b r v =
    rw (parse_eod-View v) (go (not (reserved == 0) || not (length r == 0)))
  where
    go :
        (t : Bool)
        → Agrees (if t then failed b else parsed kex b) (if t then none else some (kex, r))
    go true = tt
    go false = (refl, v)

parse_trailer-Refines :
    (cookie : List ℕ) (lists : List (List ℕ))
    → Refines (parse_trailer cookie lists) (trailer_spec cookie lists)
unfolding parse_trailer
parse_trailer-Refines cookie lists =
    >>=-Refines parse_boolean uint8 _ _ parse_boolean-Refines λ follows.
      >>=-Refines parse_uint32 uint32 _ _ parse_uint32-Refines
        λ reserved. kexinit_end-Refines (kexinit_of cookie lists follows) reserved

parse_kexinit_at-Refines :
    (lookup_atom : List ℕ → ℕ)
    → RunRefines (parse_kexinit_at lookup_atom) (kexinit_spec lookup_atom)
unfolding parse_kexinit_at
parse_kexinit_at-Refines f =
    bind_run-Refines (λ b. returns (parse_cookie b)) cookie_spec _ _ parse_cookie-Refines
      λ cookie.
        bind_run-Refines (parse_lists f 10) (lists_spec f 10) _ _ (parse_lists-Refines f 10)
          λ lists. parse_trailer-Refines cookie lists

-- The value of a specification, without the bytes that are left.
abbrev pub value_of_spec : {A : Type 0} → Option (A × List ℕ) → Option A
value_of_spec none = none
value_of_spec (some (a, r)) = some a

value_of-Agrees :
    {A : Type 0} (x : Run (Parsed A)) (y : Option (A × List ℕ))
    → AgreesRun x y
    → value_of x ≡ returns (value_of_spec y)
value_of-Agrees (returns (failed c)) none h = refl
value_of-Agrees (returns (parsed a c)) (some (d, s)) (e, w) = rw e refl
value_of-Agrees (returns (failed c)) (some y) h = absurd h
value_of-Agrees (returns (parsed a c)) none h = absurd h
value_of-Agrees aborted y h = absurd h

-- On every packet of less than 2^32 bytes parse_kexinit returns, without a failed assertion, the
-- message that the specification reads from its bytes, or NULL if the specification refuses them.
pub parse_kexinit_lem :
    (lookup_atom : List ℕ → ℕ) (packet : List ℕ)
    → length packet < 2 ^ 32
    → parse_kexinit lookup_atom packet ≡ returns (value_of_spec (kexinit_spec lookup_atom packet))
unfolding parse_kexinit
parse_kexinit_lem f packet h = value_of-Agrees _ _ (
    parse_kexinit_at-Refines f (simple_buffer_init (length packet) packet) packet
      (simple_buffer_init-View packet h))
