-- ===== src/Keyexchange/Select/Agreement.antt =====
-- src/keyexchange.c: the algorithms on which the two sides of a connection agree.
use mathlib.Core.List.{Memᴰ}
use mathlib.Core.Path.{subst}
use lsh.Prelude.{
  ℕ, ◌≡◌, refl, sym, ap, ◌∙◌, Bool, true, false, List, [], ◌∷◌, ◌++◌, Option, none, some,
  if◌then◌else◌, ◌==◌, Bool-cases, ◌⊎◌, inl, inr, length, Run, returns, then_run, arith, All,
}
use lsh.Format.{Externals}
use lsh.Keyexchange.{kex_state_init, kex_state_ignore, Kexinit, elements, KexinitState}
use lsh.Keyexchange.Packet.{format_kexinit}
use lsh.Keyexchange.Packet.RoundTrip.{IsKnown, IsSendable}
use lsh.Keyexchange.Select.{
  select_algorithm, KexError, algorithm_negotiation_failed, no_common_key_exchange_method,
  no_common_hostkey_algorithm, first, select_parameters, get_all, choose_parameters, choose_hostkey,
  wrong_guess, negotiate, handle_kexinit,
}
use lsh.Keyexchange.Select.Choice.{Choice, first_shared, select_algorithm-Choice}
use lsh.Keyexchange.Select.Agree.{negotiated, Even, stored, receives, sent, handle_kexinit-Even}
use lsh.Keyexchange.Select.Safe.{
  Covered, Every, Every-Covered-left, select_algorithm-both, select_parameters-All, All-snoc, Found,
  get_all-Returns,
}

-- The choices for the lists at the same places of two arrays, or that some place has nothing in common.
abbrev pub Chosen : List (List ℕ) → List (List ℕ) → Option (List ℕ) → Type 0
Chosen (c ∷ cs) (s ∷ ss) (some (p ∷ ps)) =
    ((p == 0) ≡ false) × Choice c s p × Chosen cs ss (some ps)
Chosen (c ∷ cs) (s ∷ ss) none = Choice c s 0 ⊎ Chosen cs ss none
Chosen [] [] (some []) = Unit {0}
Chosen _ _ _ = ⊥

select_parameters-Chosen :
    (cs ss : List (List ℕ)) → length cs ≡ length ss → Chosen cs ss (select_parameters cs ss)
unfolding select_parameters
select_parameters-Chosen [] [] h = tt
select_parameters-Chosen [] (s ∷ ss) h = absurd (omega arith)
select_parameters-Chosen (c ∷ cs) [] h = absurd (omega arith)
select_parameters-Chosen (c ∷ cs) (s ∷ ss) h = elim (Bool-cases (select_algorithm c s == 0)) [
  | inl z ↦ rw z (inl (subst (Choice c s) (ground arith) (select_algorithm-Choice c s)))
  | inr z ↦ rw z (later (select_parameters cs ss) z (select_parameters-Chosen cs ss (omega arith)))
]
  where
    later :
        (o : Option (List ℕ))
        → (select_algorithm c s == 0) ≡ false
        → Chosen cs ss o
        → Chosen
            (c ∷ cs)
            (s ∷ ss)
            (elim o [ none ↦ none | some atoms ↦ some (select_algorithm c s ∷ atoms) ])
    later none z k = inr k
    later (some atoms) z k = (z, select_algorithm-Choice c s, k)

module _ {O : Type 0} (alist_get : ℕ → Run (Option O)) where
  -- What both sides have to find for the messages of the client and the server, where the results before are
  -- `hostkey` and `list`: each choice is the client's first that the server has; the first that is
  -- missing is the error.
  pub data Agreement (hostkey : ℕ) (list : Option (List (Option O))) (client server : Kexinit)
      (result : Option KexError × ℕ × Option (List (Option O))) : Type 0 where
    no_method :
        Choice client.kex_algorithms server.kex_algorithms 0
        → result ≡ (some no_common_key_exchange_method, hostkey, list)
        → Agreement hostkey list client server result
    no_hostkey :
        (k : ℕ)
        → (k == 0) ≡ false
        → Choice client.kex_algorithms server.kex_algorithms k
        → Choice client.server_hostkey_algorithms server.server_hostkey_algorithms 0
        → result ≡ (some no_common_hostkey_algorithm, 0, list)
        → Agreement hostkey list client server result
    no_parameter :
        (k h : ℕ)
        → ((k == 0) ≡ false) × ((h == 0) ≡ false)
        → Choice client.kex_algorithms server.kex_algorithms k
        → Choice client.server_hostkey_algorithms server.server_hostkey_algorithms h
        → Chosen (elements client.parameters) (elements server.parameters) none
        → result ≡ (some algorithm_negotiation_failed, h, list)
        → Agreement hostkey list client server result
    all_chosen :
        (k h : ℕ) (ps : List ℕ) (objects : List (Option O))
        → ((k == 0) ≡ false) × ((h == 0) ≡ false)
        → Choice client.kex_algorithms server.kex_algorithms k
        → Choice client.server_hostkey_algorithms server.server_hostkey_algorithms h
        → Chosen (elements client.parameters) (elements server.parameters) (some ps)
        → get_all alist_get (ps ++ (k ∷ [])) ≡ returns objects
        → result ≡ (none, h, some objects)
        → Agreement hostkey list client server result

  -- A call whose results are such an agreement.
  abbrev pub Agrees :
      KexinitState O → Kexinit → Kexinit → Run (KexinitState O × Option KexError) → Type 0
  Agrees self client server r =
      (x : Option KexError × ℕ × Option (List (Option O))) × (negotiated alist_get r ≡ returns x)
      × Agreement self.hostkey_algorithm self.algorithm_list client server x

  choose_parameters-Agrees :
      (self state : KexinitState O) (client server : Kexinit) (k : ℕ)
      → Covered (Found alist_get) (elements client.parameters) (elements server.parameters)
      → Found alist_get k
      → ((k == 0) ≡ false) × ((state.hostkey_algorithm == 0) ≡ false)
      → state.algorithm_list ≡ self.algorithm_list
      → Choice client.kex_algorithms server.kex_algorithms k
      → Choice client.server_hostkey_algorithms server.server_hostkey_algorithms
          state.hostkey_algorithm
      → Agrees self client server (choose_parameters alist_get state client server k)
  unfolding choose_parameters
  choose_parameters-Agrees self state client server k h f z l ck ch =
      go (select_parameters (elements client.parameters) (elements server.parameters)) refl
        (select_parameters-Chosen (elements client.parameters) (elements server.parameters) refl)
    where
      go :
          (x : Option (List ℕ))
          → select_parameters (elements client.parameters) (elements server.parameters) ≡ x
          → Chosen (elements client.parameters) (elements server.parameters) x
          → Agrees self client server (elim x [
            | none ↦ returns (state, some algorithm_negotiation_failed)
            | some ps ↦
                then_run
                  (get_all alist_get (ps ++ (k ∷ [])))
                  (λ m. returns (record state { algorithm_list = some m }, none))
          ])
      go none e c = (
        _,
        refl,
        no_parameter k state.hostkey_algorithm z ck ch c
            (ap (λ o. (some algorithm_negotiation_failed, state.hostkey_algorithm, o)) l),
      )
      go (some ps) e c =
          let (m, q) = get_all-Returns alist_get (ps ++ (k ∷ [])) (
            All-snoc (Found alist_get) ps k
              (select_parameters-All (Found alist_get) (elements client.parameters)
                (elements server.parameters) ps h e)
              f) in
          (_, rw q refl, all_chosen k state.hostkey_algorithm ps m z ck ch c q refl)

  choose_hostkey-Agrees :
      (self state : KexinitState O) (client server : Kexinit) (k : ℕ)
      → Covered (Found alist_get) (elements client.parameters) (elements server.parameters)
      → Found alist_get k
      → (k == 0) ≡ false
      → state.algorithm_list ≡ self.algorithm_list
      → Choice client.kex_algorithms server.kex_algorithms k
      → Agrees self client server (choose_hostkey alist_get state client server k)
  unfolding choose_hostkey
  choose_hostkey-Agrees self state client server k h f z l ck =
      elim (Bool-cases
        (select_algorithm client.server_hostkey_algorithms server.server_hostkey_algorithms == 0)) [
          | inl e ↦
              let nothing : select_algorithm client.server_hostkey_algorithms
                    server.server_hostkey_algorithms
                  ≡ 0 =
                ground arith in
              rw e (
                _,
                refl,
                no_hostkey k z ck
                    (subst
                      (Choice client.server_hostkey_algorithms server.server_hostkey_algorithms)
                      nothing
                      (select_algorithm-Choice client.server_hostkey_algorithms
                        server.server_hostkey_algorithms))
                    (rw (nothing, l) refl),
              )
          | inr e ↦ rw e (
              choose_parameters-Agrees self _ client server k h f (z, e) l ck
                (select_algorithm-Choice client.server_hostkey_algorithms
                  server.server_hostkey_algorithms))
        ]

  -- The side that received `msg` may have to ignore a packet, which changes no result.
  wrong_guess-Agrees :
      (self : KexinitState O) (msg client server : Kexinit)
      → Covered (Found alist_get) (elements client.parameters) (elements server.parameters)
      → ((a : ℕ) → Memᴰ a client.kex_algorithms → Memᴰ a server.kex_algorithms → Found alist_get a)
      → Agrees self client server (wrong_guess alist_get self msg client server)
  unfolding wrong_guess
  wrong_guess-Agrees self msg client server h f = go (msg.first_kex_packet_follows == 0)
    where
      waits : Bool → KexinitState O
      waits t = if t then self else record self { read_state = kex_state_ignore }

      same : (t : Bool) → Even alist_get (waits t) self
      same true = (refl, refl)
      same false = (refl, refl)

      k : ℕ
      k = select_algorithm client.kex_algorithms server.kex_algorithms

      go :
          (t : Bool)
          → Agrees self client server (
              if k == 0
              then returns (waits t, some no_common_key_exchange_method)
              else choose_hostkey alist_get (waits t) client server k)
      go t = elim (Bool-cases (k == 0)) [
        | inl e ↦
            let nothing : k ≡ 0 = ground arith in
            let (atoms, list) = same t in
            rw e (
              _,
              refl,
              no_method
                  (subst (Choice client.kex_algorithms server.kex_algorithms) nothing
                    (select_algorithm-Choice client.kex_algorithms server.kex_algorithms))
                  (rw (atoms, list) refl),
            )
        | inr e ↦
            let (mc, ms) = select_algorithm-both client.kex_algorithms server.kex_algorithms e in
            rw e (
              choose_hostkey-Agrees self (waits t) client server k h (f k mc ms) e ((same t).1)
                (select_algorithm-Choice client.kex_algorithms server.kex_algorithms))
      ]

  negotiate-Agrees :
      (self : KexinitState O) (msg client server : Kexinit)
      → ((length client.kex_algorithms == 0) ≡ false)
        × ((length server.kex_algorithms == 0) ≡ false)
      → All (λ a. (a == 0) ≡ false) client.kex_algorithms
      → Covered (Found alist_get) (elements client.parameters) (elements server.parameters)
      → ((a : ℕ) → Memᴰ a client.kex_algorithms → Memᴰ a server.kex_algorithms → Found alist_get a)
      → Agrees self client server (negotiate alist_get self msg client server)
  unfolding negotiate
  negotiate-Agrees self msg client server (m, n) known h f =
      go client.kex_algorithms server.kex_algorithms refl refl m n known f
        (wrong_guess-Agrees self msg client server h f)
    where
      go :
          (cs ss : List ℕ)
          → client.kex_algorithms ≡ cs
          → server.kex_algorithms ≡ ss
          → (length cs == 0) ≡ false
          → (length ss == 0) ≡ false
          → All (λ a. (a == 0) ≡ false) cs
          → ((a : ℕ) → Memᴰ a cs → Memᴰ a ss → Found alist_get a)
          → Agrees self client server (wrong_guess alist_get self msg client server)
          → Agrees self client server (
              then_run (first cs) (λ a. then_run (first ss) (λ b.
                if a == b
                then choose_hostkey alist_get self client server a
                else wrong_guess alist_get self msg client server)))
      go [] ss p q m n known f w = absurd (ground arith)
      go (a ∷ cs) [] p q m n known f w = absurd (ground arith)
      go (a ∷ cs) (b ∷ ss) p q m n (z, known) f w = elim (Bool-cases (a == b)) [
        | inl e ↦
            let there : Memᴰ a (b ∷ ss) = Memᴰ.head (ground arith) in
            rw e (
              choose_hostkey-Agrees self self client server a h (f a (Memᴰ.head refl) there) z refl
                (subst (λ l. Choice l server.kex_algorithms a) (sym p)
                  (subst (λ l. Choice (a ∷ cs) l a) (sym q)
                    (first_shared [] cs refl tt ((λ g. absurd (ground arith)), there)))))
        | inr e ↦ rw e w
      ]

  known-nonzero :
      (ext : Externals) (lookup_atom : List ℕ → ℕ) (l : List ℕ)
      → All (IsKnown ext lookup_atom) l
      → All (λ a. (a == 0) ≡ false) l
  known-nonzero ext f [] h = tt
  known-nonzero ext f (a ∷ l) ((z, name, more), h) = (z, known-nonzero ext f l h)

  -- Two sides that wait for a KEXINIT message and have the same results so far: each has sent its message,
  -- of known algorithms with at least one key exchange algorithm, and receives the other's; the table has an
  -- entry at each algorithm of the client. Then both calls return without a failed assertion, with the same
  -- results: the client's first algorithms that the server has, in each of the lists, or the error for the first list
  -- without one.
  pub handle_kexinit-Agreement :
      (ext : Externals) (lookup_atom : List ℕ → ℕ) (fresh : ℕ → List ℕ)
      (client server : KexinitState O) (kc ks : Kexinit) (pc ps : List ℕ)
      → ((n : ℕ) → length (fresh n) ≡ n)
      → (client.read_state ≡ kex_state_init) × (server.read_state ≡ kex_state_init)
      → (client.kexinit.client ≡ some kc) × (server.kexinit.server ≡ some ks)
      → IsSendable ext lookup_atom kc × IsSendable ext lookup_atom ks
      → ((length kc.kex_algorithms == 0) ≡ false) × ((length ks.kex_algorithms == 0) ≡ false)
      → (format_kexinit ext fresh kc ≡ returns pc) × (format_kexinit ext fresh ks ≡ returns ps)
      → Even alist_get client server
      → Every (Found alist_get) (kc.kex_algorithms ∷ elements kc.parameters)
      → (x : Option KexError × ℕ × Option (List (Option O))) × (negotiated alist_get
            (handle_kexinit alist_get lookup_atom client ps false)
          ≡ returns x)
        × (negotiated alist_get (handle_kexinit alist_get lookup_atom server pc true) ≡ returns x)
        × Agreement client.hostkey_algorithm client.algorithm_list kc ks x
  handle_kexinit-Agreement ext f fresh client server kc ks pc ps sized inits owns sendable nonempty
        formats even (fk, fp) =
      let (x, e, agreement) =
        negotiate-Agrees (stored alist_get client ps ks false) ks kc ks nonempty
          (known-nonzero ext f kc.kex_algorithms sendable.0.2.0.1)
          (Every-Covered-left (Found alist_get) (elements kc.parameters) (elements ks.parameters)
            fp)
          (λ a m k. fk a m) in
      let here : negotiated alist_get (handle_kexinit alist_get f client ps false) ≡ returns x =
        ap (negotiated alist_get) (
          receives alist_get f client ps ks inits.0
            (sent alist_get ext f fresh ks ps sized sendable.1 formats.1) nonempty.1 false kc
            owns.0)
        ∙ e in
      (
        x,
        here,
        sym (
              handle_kexinit-Even alist_get ext f fresh client server kc ks pc ps sized inits owns
                sendable nonempty formats even)
            ∙ here,
        agreement,
      )
