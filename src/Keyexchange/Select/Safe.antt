-- ===== src/Keyexchange/Select/Safe.antt =====
-- src/keyexchange.c: handle_kexinit returns, whatever the other side sends.
use mathlib.Core.List.{Memᴰ}
use mathlib.Core.List.Memᴰ
use mathlib.Core.Path.{subst}
use lsh.Prelude.{
  ℕ, ◌^◌, ◌<◌, ◌≡◌, refl, sym, Bool, true, false, List, [], ◌∷◌, ◌++◌, Option, none, some,
  if◌then◌else◌, ◌==◌, Bool-cases, Option-cases, inl, inr, length, Run, returns, then_run, arith,
  All,
}
use lsh.Keyexchange.{
  kex_state_init, kex_state_ignore, kex_state_in_progress, Kexinit, elements, side, set_side,
  KexinitState,
}
use lsh.Keyexchange.Parsing.{kexinit_spec, value_of_spec, parse_kexinit_lem}
use lsh.Keyexchange.Select.{
  select_algorithm, algorithm_negotiation_failed, first, select_parameters, get_all, Handled,
  choose_parameters, choose_hostkey, wrong_guess, negotiate, both_sides, received, handle_kexinit,
}
use lsh.Keyexchange.Select.Choice.{Choice, none_shared, first_shared, select_algorithm-Choice}

-- The call gets to its end.
abbrev pub Returns : {A : Type 0} → Run A → Type 0
Returns {A} x = (a : A) × (x ≡ returns a)

Memᴰ-middle : (before after : List ℕ) (a : ℕ) → Memᴰ a (before ++ (a ∷ after))
Memᴰ-middle before after a = Memᴰ.append_right before (Memᴰ.head refl)

-- An algorithm that was selected is in both lists.
pub select_algorithm-both :
    (c s : List ℕ)
    → (select_algorithm c s == 0) ≡ false
    → Memᴰ (select_algorithm c s) c × Memᴰ (select_algorithm c s) s
select_algorithm-both c s h = go (select_algorithm c s) h (select_algorithm-Choice c s)
  where
    go : (r : ℕ) → (r == 0) ≡ false → Choice c s r → Memᴰ r c × Memᴰ r s
    go r h (none_shared e hs) = absurd (ground arith)
    go r h (first_shared before after e hs (z, m)) = (rw (e) (Memᴰ-middle before after r), m)

-- What is in two lists at the same place of the two arrays satisfies `P`.
abbrev pub Covered : (ℕ → Type 0) → List (List ℕ) → List (List ℕ) → Type 0
Covered P (c ∷ cs) (s ∷ ss) = ((a : ℕ) → Memᴰ a c → Memᴰ a s → P a) × Covered P cs ss
Covered P _ _ = Unit {0}

abbrev pub Every : (ℕ → Type 0) → List (List ℕ) → Type 0
Every P = All (λ l. (a : ℕ) → Memᴰ a l → P a)

pub Every-Covered-left : (P : ℕ → Type 0) (cs ss : List (List ℕ)) → Every P cs → Covered P cs ss
Every-Covered-left P [] ss h = tt
Every-Covered-left P (c ∷ cs) [] h = tt
Every-Covered-left P (c ∷ cs) (s ∷ ss) (h, hs) = (λ a m k. h a m, Every-Covered-left P cs ss hs)

Every-Covered-right : (P : ℕ → Type 0) (cs ss : List (List ℕ)) → Every P ss → Covered P cs ss
Every-Covered-right P [] ss h = tt
Every-Covered-right P (c ∷ cs) [] h = tt
Every-Covered-right P (c ∷ cs) (s ∷ ss) (h, hs) = (λ a m k. h a k, Every-Covered-right P cs ss hs)

pub select_parameters-All :
    (P : ℕ → Type 0) (cs ss : List (List ℕ)) (ps : List ℕ)
    → Covered P cs ss
    → select_parameters cs ss ≡ some ps
    → All P ps
unfolding select_parameters
select_parameters-All P [] ss ps h e = let k : [] ≡ ps = cc in rw (← k) tt
select_parameters-All P (c ∷ cs) [] ps h e = let k : [] ≡ ps = cc in rw (← k) tt
select_parameters-All P (c ∷ cs) (s ∷ ss) ps (h, hs) e =
    elim (Bool-cases (select_algorithm c s == 0)) [
      | inl z ↦ absurd (ground arith)
      | inr z ↦ elim (Option-cases (select_parameters cs ss)) [
        | inl n ↦ absurd (ground arith)
        | inr (qs, q) ↦
            let k : (select_algorithm c s ∷ qs) ≡ ps = ground arith in
            let (mc, ms) = select_algorithm-both c s z in
            rw (← k) (h (select_algorithm c s) mc ms, select_parameters-All P cs ss qs hs q)
      ]
    ]

pub All-snoc : (P : ℕ → Type 0) (l : List ℕ) (a : ℕ) → All P l → P a → All P (l ++ (a ∷ []))
All-snoc P [] a h k = (k, tt)
All-snoc P (b ∷ l) a (h, hs) k = (h, All-snoc P l a hs k)

module _ {O : Type 0} (alist_get : ℕ → Run (Option O)) where
  -- The table has an entry at the atom.
  abbrev pub Found : ℕ → Type 0
  Found a = Returns (alist_get a)

  pub get_all-Returns : (l : List ℕ) → All Found l → Returns (get_all alist_get l)
  unfolding get_all
  get_all-Returns [] h = ([], refl)
  get_all-Returns (a ∷ l) ((o, e), hs) =
      let (m, q) = get_all-Returns l hs in (o ∷ m, rw (e, q) refl)

  choose_parameters-Returns :
      (self : KexinitState O) (client server : Kexinit) (k : ℕ)
      → Covered Found (elements client.parameters) (elements server.parameters)
      → Found k
      → Returns (choose_parameters alist_get self client server k)
  unfolding choose_parameters
  choose_parameters-Returns self client server k h f =
      go (select_parameters (elements client.parameters) (elements server.parameters)) refl
    where
      go :
          (x : Option (List ℕ))
          → select_parameters (elements client.parameters) (elements server.parameters) ≡ x
          → Returns (elim x as (λ y. Handled alist_get) [
            | none ↦ returns (self, some algorithm_negotiation_failed)
            | some ps ↦
                then_run
                  (get_all alist_get (ps ++ (k ∷ [])))
                  (λ m. returns (record self { algorithm_list = some m }, none))
          ])
      go none e = ((self, some algorithm_negotiation_failed), refl)
      go (some ps) e =
          let (m, q) = get_all-Returns (ps ++ (k ∷ [])) (
            All-snoc Found ps k
              (select_parameters-All Found (elements client.parameters) (elements server.parameters)
                ps h e)
              f) in
          ((record self { algorithm_list = some m }, none), rw q refl)

  choose_hostkey-Returns :
      (self : KexinitState O) (client server : Kexinit) (k : ℕ)
      → Covered Found (elements client.parameters) (elements server.parameters)
      → Found k
      → Returns (choose_hostkey alist_get self client server k)
  unfolding choose_hostkey
  choose_hostkey-Returns self client server k h f =
      elim (Bool-cases
        (select_algorithm client.server_hostkey_algorithms server.server_hostkey_algorithms == 0)) [
          | inl e ↦ rw e (_, refl)
          | inr e ↦ rw e (choose_parameters-Returns _ client server k h f)
        ]

  wrong_guess-Returns :
      (self : KexinitState O) (msg client server : Kexinit)
      → Covered Found (elements client.parameters) (elements server.parameters)
      → ((a : ℕ) → Memᴰ a client.kex_algorithms → Memᴰ a server.kex_algorithms → Found a)
      → Returns (wrong_guess alist_get self msg client server)
  unfolding wrong_guess
  wrong_guess-Returns self msg client server h f =
      elim (Bool-cases (select_algorithm client.kex_algorithms server.kex_algorithms == 0)) [
        | inl e ↦ rw e (_, refl)
        | inr e ↦ rw e (
            let (mc, ms) = select_algorithm-both client.kex_algorithms server.kex_algorithms e in
            choose_hostkey-Returns
              (if msg.first_kex_packet_follows == 0
                then self
                else record self { read_state = kex_state_ignore })
              client server (select_algorithm client.kex_algorithms server.kex_algorithms) h
              (f _ mc ms))
      ]

  negotiate-Returns :
      (self : KexinitState O) (msg client server : Kexinit)
      → (length client.kex_algorithms == 0) ≡ false
      → (length server.kex_algorithms == 0) ≡ false
      → Covered Found (elements client.parameters) (elements server.parameters)
      → ((a : ℕ) → Memᴰ a client.kex_algorithms → Memᴰ a server.kex_algorithms → Found a)
      → Returns (negotiate alist_get self msg client server)
  unfolding negotiate
  negotiate-Returns self msg client server m n h f =
      go client.kex_algorithms server.kex_algorithms m n f
        (wrong_guess-Returns self msg client server h f)
    where
      go :
          (cs ss : List ℕ)
          → (length cs == 0) ≡ false
          → (length ss == 0) ≡ false
          → ((a : ℕ) → Memᴰ a cs → Memᴰ a ss → Found a)
          → Returns (wrong_guess alist_get self msg client server)
          → Returns (
              then_run (first cs) (λ a. then_run (first ss) (λ b.
                if a == b
                then choose_hostkey alist_get self client server a
                else wrong_guess alist_get self msg client server)))
      go [] ss m n f w = absurd (ground arith)
      go (a ∷ cs) [] m n f w = absurd (ground arith)
      go (a ∷ cs) (b ∷ ss) m n f w = elim (Bool-cases (a == b)) [
        | inl e ↦ rw e (
            choose_hostkey-Returns self client server a h
              (f a (Memᴰ.head refl) (Memᴰ.head (ground arith))))
        | inr e ↦ rw e w
      ]

  received-Returns :
      (self : KexinitState O) (packet : List ℕ) (is_server : Bool) (own : Kexinit)
      (msg : Option Kexinit)
      → side self.kexinit is_server ≡ some own
      → (length own.kex_algorithms == 0) ≡ false
      → Every Found (own.kex_algorithms ∷ elements own.parameters)
      → Returns (received alist_get self packet is_server msg)
  received-Returns self packet is_server own none o n h = (_, refl)
  received-Returns self packet true own (some msg) o n (h, hs) =
      elim (Bool-cases (length msg.kex_algorithms == 0)) [
        | inl e ↦ rw e (_, refl)
        | inr e ↦ rw e (
            subst
              (λ x. Returns (
                both_sides alist_get
                  (record self {
                    literal_kexinit = set_side self.literal_kexinit false (some packet);
                    kexinit = set_side self.kexinit false (some msg);
                  })
                  msg (some msg) x))
              (sym o)
              (negotiate-Returns
                (record self {
                  literal_kexinit = set_side self.literal_kexinit false (some packet);
                  kexinit = set_side self.kexinit false (some msg);
                })
                msg msg own e n
                (Every-Covered-right Found (elements msg.parameters) (elements own.parameters) hs)
                (λ a m k. h a k)))
      ]
  received-Returns self packet false own (some msg) o n (h, hs) =
      elim (Bool-cases (length msg.kex_algorithms == 0)) [
        | inl e ↦ rw e (_, refl)
        | inr e ↦ rw e (
            subst
              (λ x. Returns (
                both_sides alist_get
                  (record self {
                    literal_kexinit = set_side self.literal_kexinit true (some packet);
                    kexinit = set_side self.kexinit true (some msg);
                  })
                  msg x (some msg)))
              (sym o)
              (negotiate-Returns
                (record self {
                  literal_kexinit = set_side self.literal_kexinit true (some packet);
                  kexinit = set_side self.kexinit true (some msg);
                })
                msg own msg n e
                (Every-Covered-left Found (elements own.parameters) (elements msg.parameters) hs)
                (λ a m k. h a m)))
      ]

  -- Whatever packet of less than 2^32 bytes the other side sends, handle_kexinit returns without a
  -- failed assertion, if it waits for KEXINIT, has sent its own message with at least one key exchange
  -- algorithm, and the table has an entry at each of its own algorithms.
  pub handle_kexinit-Returns :
      (lookup_atom : List ℕ → ℕ) (self : KexinitState O) (packet : List ℕ) (is_server : Bool)
      (own : Kexinit)
      → length packet < 2 ^ 32
      → self.read_state ≡ kex_state_init
      → side self.kexinit is_server ≡ some own
      → (length own.kex_algorithms == 0) ≡ false
      → Every Found (own.kex_algorithms ∷ elements own.parameters)
      → Returns (handle_kexinit alist_get lookup_atom self packet is_server)
  unfolding handle_kexinit
  handle_kexinit-Returns f self packet is_server own small i o n h =
      rw (i, parse_kexinit_lem f packet small)
        (received-Returns (record self { read_state = kex_state_in_progress }) packet is_server own
          (value_of_spec (kexinit_spec f packet)) o n h)
