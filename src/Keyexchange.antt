-- ===== src/Keyexchange.antt =====
-- src/keyexchange.c and the types of src/keyexchange.h: the KEXINIT message, and the choice of the
-- algorithms; int_list_member of src/list.c. Objects are not freed; an array indexed by the side is
-- a pair, the client first.
pub mod Select
pub mod Parsing
pub mod Packet
pub mod Keys
pub mod Runs
use lsh.Prelude.{
  ℕ, zero, suc, ◌+◌, Bool, true, false, not, ◌||◌, List, [], ◌∷◌, ◌++◌, Option, none, some,
  if◌then◌else◌, ◌==◌, length, get_or, Run, aborted, returns, then_run,
}
use lsh.Parse.{
  SimpleBuffer, Parsed, failed, parsed, Parser, ◌>>=◌, simple_buffer_init, parse_uint8,
  parse_octets, parse_boolean, parse_uint32, parse_eod,
}
use lsh.Parse.Atoms.{parse_atom_list}

pub data KexState : Type 0 where
  kex_state_init : KexState
  kex_state_ignore : KexState
  kex_state_in_progress : KexState
  kex_state_newkeys : KexState

-- An array of KEX_PARAMETERS elements.
pub record Parameters (A : Type 0) : Type 0 where
  pub encryption_client_to_server : A
  pub encryption_server_to_client : A
  pub mac_client_to_server : A
  pub mac_server_to_client : A
  pub compression_client_to_server : A
  pub compression_server_to_client : A

-- Its elements in the order of their indices.
abbrev pub elements : {A : Type 0} → Parameters A → List A
elements p =
    p.encryption_client_to_server ∷ p.encryption_server_to_client ∷ p.mac_client_to_server
    ∷ p.mac_server_to_client ∷ p.compression_client_to_server ∷ p.compression_server_to_client ∷ []

pub record Kexinit : Type 0 where
  pub cookie : List ℕ
  pub kex_algorithms : List ℕ
  pub server_hostkey_algorithms : List ℕ
  pub parameters : Parameters (List ℕ)
  pub languages_client_to_server : List ℕ
  pub languages_server_to_client : List ℕ
  pub first_kex_packet_follows : ℕ

-- An array of two elements: index 0 is the client, index 1 the server.
pub record Sides (A : Type 0) : Type 0 where
  pub client : A
  pub server : A

abbrev pub side : {A : Type 0} → Sides A → Bool → A
side p false = p.client
side p true = p.server

abbrev pub set_side : {A : Type 0} → Sides A → Bool → A → Sides A
set_side p false a = record p { client = a }
set_side p true a = record p { server = a }

abbrev pub no_sides : {A : Type 0} → Sides (Option A)
no_sides = record { client = none; server = none }

-- `O` is the type of the objects that implement the algorithms.
pub record KexinitState (O : Type 0) : Type 0 where
  pub read_state : KexState
  pub write_state : ℕ
  pub version : Sides (Option (List ℕ))
  pub kexinit : Sides (Option Kexinit)
  pub literal_kexinit : Sides (Option (List ℕ))
  pub hostkey_algorithm : ℕ
  pub algorithm_list : Option (List (Option O))

unfoldable pub init_kexinit_state : {O : Type 0} → KexinitState O
init_kexinit_state = record {
  read_state = kex_state_init;
  write_state = 0;
  version = no_sides;
  kexinit = no_sides;
  literal_kexinit = no_sides;
  hostkey_algorithm = 0;
  algorithm_list = none;
}

unfoldable pub reset_kexinit_state : {O : Type 0} → KexinitState O → KexinitState O
reset_kexinit_state self = record self {
  read_state = kex_state_init;
  kexinit = no_sides;
  literal_kexinit = no_sides;
  hostkey_algorithm = 0;
  algorithm_list = none;
}

pub record KexinitInfo : Type 0 where
  pub kex_algorithms : List ℕ
  pub hostkey_algorithms : List ℕ
  pub crypto_algorithms : List ℕ
  pub mac_algorithms : List ℕ
  pub compression_algorithms : List ℕ
  pub languages : List ℕ

-- `cookie` is the 16 bytes of the random generator.
unfoldable pub make_kexinit : List ℕ → KexinitInfo → Kexinit
make_kexinit cookie self = record {
  cookie = cookie;
  kex_algorithms = self.kex_algorithms;
  server_hostkey_algorithms = self.hostkey_algorithms;
  parameters = record {
    encryption_client_to_server = self.crypto_algorithms;
    encryption_server_to_client = self.crypto_algorithms;
    mac_client_to_server = self.mac_algorithms;
    mac_server_to_client = self.mac_algorithms;
    compression_client_to_server = self.compression_algorithms;
    compression_server_to_client = self.compression_algorithms;
  };
  languages_client_to_server = self.languages;
  languages_server_to_client = self.languages;
  first_kex_packet_follows = 0;
}

-- A step of a parser that may fail an assertion.
abbrev pub bind_run :
    {A B : Type 0} → Run (Parsed A) → (A → SimpleBuffer → Run (Parsed B)) → Run (Parsed B)
bind_run aborted f = aborted
bind_run (returns (failed c)) f = returns (failed c)
bind_run (returns (parsed a c)) f = f a c

-- The loop over the lists that are still to be read.
unfoldable pub parse_lists : (List ℕ → ℕ) → ℕ → SimpleBuffer → Run (Parsed (List (List ℕ)))
parse_lists lookup_atom zero b = returns (parsed [] b)
parse_lists lookup_atom (suc count) b =
    bind_run (parse_atom_list lookup_atom 500 b)
      λ l c. bind_run (parse_lists lookup_atom count c) λ lists d. returns (parsed (l ∷ lists) d)

unfoldable pub parse_cookie : Parser (List ℕ)
parse_cookie = do
  msg_number ← parse_uint8
  if not (msg_number == 20) then failed else parse_octets 16

unfoldable pub kexinit_of : List ℕ → List (List ℕ) → ℕ → Kexinit
kexinit_of cookie lists follows = record {
  cookie = cookie;
  kex_algorithms = get_or lists 0 [];
  server_hostkey_algorithms = get_or lists 1 [];
  parameters = record {
    encryption_client_to_server = get_or lists 2 [];
    encryption_server_to_client = get_or lists 3 [];
    mac_client_to_server = get_or lists 4 [];
    mac_server_to_client = get_or lists 5 [];
    compression_client_to_server = get_or lists 6 [];
    compression_server_to_client = get_or lists 7 [];
  };
  languages_client_to_server = get_or lists 8 [];
  languages_server_to_client = get_or lists 9 [];
  first_kex_packet_follows = follows;
}

abbrev pub kexinit_end : Kexinit → ℕ → Parser Kexinit
kexinit_end kex reserved b =
    if not (reserved == 0) || not (parse_eod b) then failed b else parsed kex b

unfoldable pub parse_trailer : List ℕ → List (List ℕ) → Parser Kexinit
unfolding kexinit_of
parse_trailer cookie lists = do
  follows ← parse_boolean
  reserved ← parse_uint32
  kexinit_end (kexinit_of cookie lists follows) reserved

unfoldable pub parse_kexinit_at : (List ℕ → ℕ) → SimpleBuffer → Run (Parsed Kexinit)
unfolding parse_cookie parse_lists parse_trailer
parse_kexinit_at lookup_atom b = bind_run (returns (parse_cookie b)) λ cookie c.
    bind_run (parse_lists lookup_atom 10 c) λ lists d. returns (parse_trailer cookie lists d)

abbrev pub value_of : {A : Type 0} → Run (Parsed A) → Run (Option A)
value_of aborted = aborted
value_of (returns (failed c)) = returns none
value_of (returns (parsed a c)) = returns (some a)

unfoldable pub parse_kexinit : (List ℕ → ℕ) → List ℕ → Run (Option Kexinit)
unfolding parse_kexinit_at simple_buffer_init
parse_kexinit lookup_atom packet =
    value_of (parse_kexinit_at lookup_atom (simple_buffer_init (length packet) packet))
