-- ===== src/Keyexchange/Select.antt =====
-- src/keyexchange.c: select_algorithm and handle_kexinit.
pub mod Choice
pub mod Agree
pub mod Safe
pub mod Agreement
use lsh.Prelude.{
  ℕ, ◌+◌, Bool, true, false, not, List, [], ◌∷◌, ◌++◌, Option, none, some, if◌then◌else◌, ◌==◌,
  length, Run, aborted, returns, then_run,
}
use lsh.Keyexchange.{
  KexState, kex_state_init, kex_state_ignore, kex_state_in_progress, kex_state_newkeys, Kexinit,
  elements, Sides, side, set_side, KexinitState, parse_kexinit,
}

unfoldable pub int_list_member : List ℕ → ℕ → Bool
int_list_member [] atom = false
int_list_member (a ∷ list) atom = if a == atom then true else int_list_member list atom

-- 0 is an unknown algorithm, and the answer if there is none in common.
unfoldable pub select_algorithm : List ℕ → List ℕ → ℕ
unfolding int_list_member
select_algorithm [] server_list = 0
select_algorithm (a ∷ client_list) server_list =
    let rest = select_algorithm client_list server_list in
    if a == 0 then rest else if int_list_member server_list a then a else rest

-- The error messages.
pub data KexError : Type 0 where
  invalid_kexinit_message : KexError
  no_keyexchange_method : KexError
  no_common_key_exchange_method : KexError
  no_common_hostkey_algorithm : KexError
  algorithm_negotiation_failed : KexError

-- `LIST(list)[0]`: on an empty list the code reads out of its bounds.
abbrev pub first : List ℕ → Run ℕ
first [] = aborted
first (a ∷ list) = returns a

-- The loop over the parameters, which ends at the first that has no algorithm in common.
unfoldable pub select_parameters : List (List ℕ) → List (List ℕ) → Option (List ℕ)
unfolding select_algorithm
select_parameters (c ∷ client) (s ∷ server) =
    let rest = select_parameters client server in
    if select_algorithm c s == 0
    then none
    else elim rest [ none ↦ none | some atoms ↦ some (select_algorithm c s ∷ atoms) ]
select_parameters _ _ = some []

abbrev pub is_init : KexState → Bool
is_init kex_state_init = true
is_init kex_state_ignore = false
is_init kex_state_in_progress = false
is_init kex_state_newkeys = false

-- `alist_get` is the method `get` of the table of algorithms, which may fail an assertion.
module _ {O : Type 0} (alist_get : ℕ → Run (Option O)) where
  abbrev pub Handled : Type 0
  Handled = Run (KexinitState O × Option KexError)

  unfoldable pub get_all : List ℕ → Run (List (Option O))
  get_all [] = returns []
  get_all (atom ∷ atoms) =
      then_run (alist_get atom) (λ o. then_run (get_all atoms) (λ l. returns (o ∷ l)))

  unfoldable pub choose_parameters : KexinitState O → Kexinit → Kexinit → ℕ → Handled
  unfolding select_parameters get_all
  choose_parameters self client server kex_algorithm_atom =
      elim (select_parameters (elements client.parameters) (elements server.parameters)) [
        | none ↦ returns (self, some algorithm_negotiation_failed)
        | some parameter ↦
            then_run (get_all (parameter ++ (kex_algorithm_atom ∷ [])))
              (λ l. returns (record self { algorithm_list = some l }, none))
      ]

  unfoldable pub choose_hostkey : KexinitState O → Kexinit → Kexinit → ℕ → Handled
  unfolding choose_parameters select_algorithm
  choose_hostkey self client server kex_algorithm_atom =
      let atom =
        select_algorithm client.server_hostkey_algorithms server.server_hostkey_algorithms in
      let self' = record self { hostkey_algorithm = atom } in
      if atom == 0
      then returns (self', some no_common_hostkey_algorithm)
      else choose_parameters self' client server kex_algorithm_atom

  -- The other side's guess was wrong: its next packet is to be ignored if it has sent one.
  unfoldable pub wrong_guess : KexinitState O → Kexinit → Kexinit → Kexinit → Handled
  unfolding choose_hostkey select_algorithm
  wrong_guess self msg client server =
      let self' =
        if msg.first_kex_packet_follows == 0
        then self
        else record self { read_state = kex_state_ignore } in
      let atom = select_algorithm client.kex_algorithms server.kex_algorithms in
      if atom == 0
      then returns (self', some no_common_key_exchange_method)
      else choose_hostkey self' client server atom

  unfoldable pub negotiate : KexinitState O → Kexinit → Kexinit → Kexinit → Handled
  unfolding wrong_guess choose_hostkey
  negotiate self msg client server = then_run (first client.kex_algorithms) (λ a.
      then_run (first server.kex_algorithms) (λ b.
        if a == b then choose_hostkey self client server a else wrong_guess self msg client server))

  -- `assert(self->kexinit[is_server])`
  abbrev pub both_sides : KexinitState O → Kexinit → Option Kexinit → Option Kexinit → Handled
  both_sides self msg (some client) (some server) = negotiate self msg client server
  both_sides self msg _ _ = aborted

  abbrev pub received : KexinitState O → List ℕ → Bool → Option Kexinit → Handled
  received self packet is_server none = returns (self, some invalid_kexinit_message)
  received self packet is_server (some msg) =
      let self' = record self {
        literal_kexinit = set_side self.literal_kexinit (not is_server) (some packet);
        kexinit = set_side self.kexinit (not is_server) (some msg);
      } in
      if length msg.kex_algorithms == 0
      then returns (self, some no_keyexchange_method)
      else both_sides self' msg self'.kexinit.client self'.kexinit.server

  unfoldable pub handle_kexinit : (List ℕ → ℕ) → KexinitState O → List ℕ → Bool → Handled
  unfolding negotiate
  handle_kexinit lookup_atom self packet is_server =
      if is_init self.read_state
      then then_run (parse_kexinit lookup_atom packet)
          (received (record self { read_state = kex_state_in_progress }) packet is_server)
      else aborted
