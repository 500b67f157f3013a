-- ===== src/Keyexchange/Select/Agree.antt =====
-- src/keyexchange.c: handle_kexinit on the two sides of a connection.
use lsh.Prelude.{
  ℕ, ◌≡◌, refl, ap, Bool, not, true, false, List, [], ◌∷◌, ◌++◌, Option, none, some, if◌then◌else◌,
  ◌==◌, Bool-cases, inl, inr, length, Run, aborted, returns, then_run,
}
use lsh.Format.{Externals}
use lsh.Keyexchange.{
  kex_state_init, kex_state_ignore, side, set_side, kex_state_in_progress, Kexinit, elements,
  KexinitState, parse_kexinit,
}
use lsh.Keyexchange.Packet.{format_kexinit}
use lsh.Keyexchange.Packet.RoundTrip.{IsSendable, parse_kexinit-format_kexinit}
use lsh.Keyexchange.Select.{
  select_algorithm, KexError, algorithm_negotiation_failed, no_common_key_exchange_method, first,
  select_parameters, get_all, Handled, choose_parameters, choose_hostkey, wrong_guess, negotiate,
  both_sides, handle_kexinit,
}

module _ {O : Type 0} (alist_get : ℕ → Run (Option O)) where
  -- What the negotiation gives: the error, or the algorithms.
  abbrev pub Negotiated : Type 0
  Negotiated = Run (Option KexError × ℕ × Option (List (Option O)))

  abbrev pub negotiated : Handled alist_get → Negotiated
  negotiated aborted = aborted
  negotiated (returns (self, error)) = returns (error, self.hostkey_algorithm, self.algorithm_list)

  -- Two states with the same results so far.
  abbrev pub Even : KexinitState O → KexinitState O → Type 0
  Even self other =
      (self.hostkey_algorithm ≡ other.hostkey_algorithm)
      × (self.algorithm_list ≡ other.algorithm_list)

  choose_parameters-Even :
      (self other : KexinitState O) (client server : Kexinit) (k : ℕ)
      → Even self other
      → negotiated (choose_parameters alist_get self client server k)
        ≡ negotiated (choose_parameters alist_get other client server k)
  unfolding choose_parameters
  choose_parameters-Even self other client server k (h, l) =
      go (select_parameters (elements client.parameters) (elements server.parameters))
    where
      got :
          (x : Run (List (Option O)))
          → negotiated (then_run x (λ m. returns (record self { algorithm_list = some m }, none)))
            ≡ negotiated
                (then_run x (λ m. returns (record other { algorithm_list = some m }, none)))
      got aborted = refl
      got (returns m) = rw h refl

      go :
          (x : Option (List ℕ))
          → negotiated (elim x [
            | none ↦ returns (self, some algorithm_negotiation_failed)
            | some ps ↦
                then_run
                  (get_all alist_get (ps ++ (k ∷ [])))
                  (λ m. returns (record self { algorithm_list = some m }, none))
          ])
            ≡ negotiated (elim x [
              | none ↦ returns (other, some algorithm_negotiation_failed)
              | some ps ↦
                  then_run
                    (get_all alist_get (ps ++ (k ∷ [])))
                    (λ m. returns (record other { algorithm_list = some m }, none))
            ])
      go none = rw (h, l) refl
      go (some ps) = got (get_all alist_get (ps ++ (k ∷ [])))

  choose_hostkey-Even :
      (self other : KexinitState O) (client server : Kexinit) (k : ℕ)
      → Even self other
      → negotiated (choose_hostkey alist_get self client server k)
        ≡ negotiated (choose_hostkey alist_get other client server k)
  unfolding choose_hostkey
  choose_hostkey-Even self other client server k (h, l) =
      elim (Bool-cases
        (select_algorithm client.server_hostkey_algorithms server.server_hostkey_algorithms == 0)) [
          | inl e ↦ rw (e, l) refl
          | inr e ↦ rw e (choose_parameters-Even _ _ client server k (refl, l))
        ]

  wrong_guess-Even :
      (self other : KexinitState O) (msg reply client server : Kexinit)
      → Even self other
      → negotiated (wrong_guess alist_get self msg client server)
        ≡ negotiated (wrong_guess alist_get other reply client server)
  unfolding wrong_guess
  wrong_guess-Even self other msg reply client server (h, l) =
      elim (Bool-cases (select_algorithm client.kex_algorithms server.kex_algorithms == 0)) [
        | inl e ↦
            rw e (same (msg.first_kex_packet_follows == 0) (reply.first_kex_packet_follows == 0))
        | inr e ↦ rw e (
            choose_hostkey-Even _ _ client server _
              (even (msg.first_kex_packet_follows == 0) (reply.first_kex_packet_follows == 0)))
      ]
    where
      waits : KexinitState O → Bool → KexinitState O
      waits state t = if t then state else record state { read_state = kex_state_ignore }

      even : (t u : Bool) → Even (waits self t) (waits other u)
      even true true = (h, l)
      even true false = (h, l)
      even false true = (h, l)
      even false false = (h, l)

      same :
          (t u : Bool)
          → negotiated (returns (waits self t, some no_common_key_exchange_method))
            ≡ negotiated (returns (waits other u, some no_common_key_exchange_method))
      same t u = rw ((even t u).0, (even t u).1) refl

  negotiate-Even :
      (self other : KexinitState O) (msg reply client server : Kexinit)
      → Even self other
      → negotiated (negotiate alist_get self msg client server)
        ≡ negotiated (negotiate alist_get other reply client server)
  unfolding negotiate
  negotiate-Even self other msg reply client server h =
      go (first client.kex_algorithms) (first server.kex_algorithms)
    where
      chosen : KexinitState O → Kexinit → Run ℕ → Run ℕ → Handled alist_get
      chosen state m x y = then_run x (λ a. then_run y (λ b.
          if a == b
          then choose_hostkey alist_get state client server a
          else wrong_guess alist_get state m client server))

      go : (x y : Run ℕ) → negotiated (chosen self msg x y) ≡ negotiated (chosen other reply x y)
      go aborted y = refl
      go (returns a) aborted = refl
      go (returns a) (returns b) = elim (Bool-cases (a == b)) [
        | inl e ↦ rw e (choose_hostkey-Even self other client server a h)
        | inr e ↦ rw e (wrong_guess-Even self other msg reply client server h)
      ]

  -- One side that has sent its message, and receives the other's.
  abbrev pub stored : KexinitState O → List ℕ → Kexinit → Bool → KexinitState O
  stored self packet msg is_server = record self {
    read_state = kex_state_in_progress;
    literal_kexinit = set_side self.literal_kexinit (not is_server) (some packet);
    kexinit = set_side self.kexinit (not is_server) (some msg);
  }

  pub receives :
      (lookup_atom : List ℕ → ℕ) (self : KexinitState O) (packet : List ℕ) (msg : Kexinit)
      → self.read_state ≡ kex_state_init
      → parse_kexinit lookup_atom packet ≡ returns (some msg)
      → (length msg.kex_algorithms == 0) ≡ false
      → (is_server : Bool) (own : Kexinit) → side self.kexinit is_server ≡ some own
      → handle_kexinit alist_get lookup_atom self packet is_server ≡ (
          if is_server
          then negotiate alist_get (stored self packet msg true) msg msg own
          else negotiate alist_get (stored self packet msg false) msg own msg)
  unfolding handle_kexinit
  receives f self packet msg i p n true own e =
      rw (i, p, n)
        (ap {A = Option Kexinit} (both_sides alist_get (stored self packet msg true) msg (some msg))
          e)
  receives f self packet msg i p n false own e =
      rw (i, p, n)
        (ap {A = Option Kexinit}
          (λ o. both_sides alist_get (stored self packet msg false) msg o (some msg)) e)

  -- A packet that was written for a message is parsed as that message.
  pub sent :
      (ext : Externals) (lookup_atom : List ℕ → ℕ) (fresh : ℕ → List ℕ) (kex : Kexinit)
      (packet : List ℕ)
      → ((n : ℕ) → length (fresh n) ≡ n)
      → IsSendable ext lookup_atom kex
      → format_kexinit ext fresh kex ≡ returns packet
      → parse_kexinit lookup_atom packet ≡ returns (some kex)
  sent ext f fresh kex packet sized good e =
      let (written, w, p) = parse_kexinit-format_kexinit ext f fresh kex sized good in
      let same : written ≡ packet = cc in rw same at p

  -- Two sides that wait for a KEXINIT message and have the same results so far: when each has sent
  -- its message, with known algorithms, and receives the other's, both fail with the same error, or
  -- both have the same host key algorithm and the same list of algorithms.
  pub handle_kexinit-Even :
      (ext : Externals) (lookup_atom : List ℕ → ℕ) (fresh : ℕ → List ℕ)
      (client server : KexinitState O) (kc ks : Kexinit) (pc ps : List ℕ)
      → ((n : ℕ) → length (fresh n) ≡ n)
      → (client.read_state ≡ kex_state_init) × (server.read_state ≡ kex_state_init)
      → (client.kexinit.client ≡ some kc) × (server.kexinit.server ≡ some ks)
      → IsSendable ext lookup_atom kc × IsSendable ext lookup_atom ks
      → ((length kc.kex_algorithms == 0) ≡ false) × ((length ks.kex_algorithms == 0) ≡ false)
      → (format_kexinit ext fresh kc ≡ returns pc) × (format_kexinit ext fresh ks ≡ returns ps)
      → Even client server
      → negotiated (handle_kexinit alist_get lookup_atom client ps false)
        ≡ negotiated (handle_kexinit alist_get lookup_atom server pc true)
  handle_kexinit-Even ext f fresh client server kc ks pc ps sized (ic, is) (oc, os) (gc, gs)
        (nc, ns) (ec, es) (h, l) =
      rw (receives f client ps ks ic (sent ext f fresh ks ps sized gs es) ns false kc oc) (
        rw (receives f server pc kc is (sent ext f fresh kc pc sized gc ec) nc true ks os) (
          negotiate-Even (stored client ps ks false) (stored server pc kc true) ks kc kc ks (h, l)))
