-- ===== src/Keyexchange/Runs.antt =====
-- src/keyexchange.c on two sides that each offer two algorithms.
use mathlib.Core.List.{Memᴰ}
use lsh.Prelude.{
  ℕ, zero, suc, ◌≤◌, ◌≡◌, refl, true, false, List, [], ◌∷◌, Option, none, some, length, take, Run,
  returns, if◌then◌else◌, ◌==◌, arith, All, get_or,
}
use lsh.Format.{Externals}
use lsh.Format.Runs.{zeros, length-zeros}
use lsh.Keyexchange.{Kexinit, KexinitState, kex_state_init, no_sides, parse_kexinit}
use lsh.Keyexchange.Parsing.{kexinit_spec, value_of_spec, parse_kexinit_lem}
use lsh.Keyexchange.Packet.{format_kexinit, kexinit_bytes}
use lsh.Keyexchange.Packet.RoundTrip.{
  IsKnown, IsSendable, format_kexinit-bytes, parse_kexinit-format_kexinit,
}
use lsh.Keyexchange.Select.{KexError, handle_kexinit, select_algorithm}
use lsh.Keyexchange.Select.Choice.{Choice, select_algorithm-Choice}
use lsh.Keyexchange.Select.Agree.{negotiated}
use lsh.Keyexchange.Select.Agreement.{Agreement, handle_kexinit-Agreement}
use lsh.Keyexchange.Select.Safe.{Returns, handle_kexinit-Returns}
use lsh.Keyexchange.Keys.{Hash, kex_make_key, key_stream}
use lsh.Keyexchange.Keys.Stream.{kex_make_key-key_stream}

-- Atom `n` has the name of `n` letters `a`.
abbrev letters : ℕ → List ℕ
letters zero = []
letters (suc n) = b'a' ∷ letters n

length-letters : (n : ℕ) → length (letters n) ≡ n
length-letters zero = refl
length-letters (suc n) = omega (arith, length-letters n)

abbrev named : Externals
named = record {
  get_atom_length = λ n. n;
  get_atom_name = letters;
  sizeinbase_256_u = λ n. 1;
  sizeinbase_256_s = λ n. 1;
  get_str_256 = λ l n. zeros l;
  length-name = length-letters;
  length-get_str_256 = λ l n. length-zeros l;
}

abbrev known : List ℕ → ℕ
known name = if length name == 1 then 1 else if length name == 2 then 2 else 0

abbrev offer : List ℕ → Kexinit
offer l = record {
  cookie = zeros 16;
  kex_algorithms = l;
  server_hostkey_algorithms = l;
  parameters = record {
    encryption_client_to_server = l;
    encryption_server_to_client = l;
    mac_client_to_server = l;
    mac_server_to_client = l;
    compression_client_to_server = l;
    compression_server_to_client = l;
  };
  languages_client_to_server = [];
  languages_server_to_client = [];
  first_kex_packet_follows = 0;
}

abbrev client_offer : Kexinit
client_offer = offer (2 ∷ 1 ∷ [])

abbrev server_offer : Kexinit
server_offer = offer (1 ∷ 2 ∷ [])

abbrev waiting : KexinitState ℕ
waiting = record {
  read_state = kex_state_init;
  write_state = 1;
  version = no_sides;
  kexinit = no_sides;
  literal_kexinit = no_sides;
  hostkey_algorithm = 0;
  algorithm_list = none;
}

abbrev client : KexinitState ℕ
client = record waiting { kexinit = record { client = some client_offer; server = none } }

abbrev server : KexinitState ℕ
server = record waiting { kexinit = record { client = none; server = some server_offer } }

abbrev table : ℕ → Run (Option ℕ)
table a = returns (some a)

one-IsKnown : IsKnown named known 1
one-IsKnown = (refl, refl, (omega arith, omega arith, (refl, tt)))

two-IsKnown : IsKnown named known 2
two-IsKnown = (refl, refl, (omega arith, omega arith, (refl, (refl, tt))))

client_offer-IsSendable : IsSendable named known client_offer
client_offer-IsSendable = (
  refl,
  omega arith,
  (
    all,
    (all, (all, (all, (all, (all, (all, (all, ((omega arith, tt), ((omega arith, tt), tt))))))))),
  ),
)
  where
    all : (2 ≤ 500) × All (IsKnown named known) (2 ∷ 1 ∷ [])
    all = (omega arith, (two-IsKnown, (one-IsKnown, tt)))

server_offer-IsSendable : IsSendable named known server_offer
server_offer-IsSendable = (
  refl,
  omega arith,
  (
    all,
    (all, (all, (all, (all, (all, (all, (all, ((omega arith, tt), ((omega arith, tt), tt))))))))),
  ),
)
  where
    all : (2 ≤ 500) × All (IsKnown named known) (1 ∷ 2 ∷ [])
    all = (omega arith, (one-IsKnown, (two-IsKnown, tt)))

parse_kexinit-format_kexinit_example :
    (packet : List ℕ) × (format_kexinit named zeros client_offer ≡ returns packet)
    × (parse_kexinit known packet ≡ returns (some client_offer))
parse_kexinit-format_kexinit_example =
    parse_kexinit-format_kexinit named known zeros client_offer length-zeros client_offer-IsSendable

handle_kexinit-Agreement_example :
    (x : Option KexError × ℕ × Option (List (Option ℕ))) × (negotiated table
        (handle_kexinit table known client (kexinit_bytes named server_offer) false)
      ≡ returns x)
    × (negotiated table (handle_kexinit table known server (kexinit_bytes named client_offer) true)
        ≡ returns x)
    × Agreement table 0 none client_offer server_offer x
handle_kexinit-Agreement_example =
    handle_kexinit-Agreement table named known zeros client server client_offer server_offer
      (kexinit_bytes named client_offer) (kexinit_bytes named server_offer) length-zeros
      (refl, refl) (refl, refl) (client_offer-IsSendable, server_offer-IsSendable) (refl, refl)
      (
        format_kexinit-bytes named known zeros client_offer length-zeros client_offer-IsSendable,
        format_kexinit-bytes named known zeros server_offer length-zeros server_offer-IsSendable,
      )
      (refl, refl) (found, (found, (found, (found, (found, (found, (found, tt)))))))
  where
    found : {l : List ℕ} (a : ℕ) → Memᴰ a l → Returns (table a)
    found a m = (some a, refl)

parse_kexinit_lem_example :
    parse_kexinit known (kexinit_bytes named client_offer)
    ≡ returns (value_of_spec (kexinit_spec known (kexinit_bytes named client_offer)))
parse_kexinit_lem_example = parse_kexinit_lem known (kexinit_bytes named client_offer) (omega arith)

select_algorithm-Choice_example :
    Choice (0 ∷ 3 ∷ 2 ∷ []) (1 ∷ 2 ∷ []) (select_algorithm (0 ∷ 3 ∷ 2 ∷ []) (1 ∷ 2 ∷ []))
select_algorithm-Choice_example = select_algorithm-Choice (0 ∷ 3 ∷ 2 ∷ []) (1 ∷ 2 ∷ [])

handle_kexinit-Returns_example :
    Returns (handle_kexinit table known server (kexinit_bytes named client_offer) true)
handle_kexinit-Returns_example =
    handle_kexinit-Returns table known server (kexinit_bytes named client_offer) true server_offer
      (omega arith) refl refl refl (found, (found, (found, (found, (found, (found, (found, tt)))))))
  where
    found : {l : List ℕ} (a : ℕ) → Memᴰ a l → Returns (table a)
    found a m = (some a, refl)

-- A hash of two bytes: the length of its input, and the first byte.
abbrev small_hash : Hash
small_hash = record {
  digest_size = 2;
  digest = λ input. length input ∷ get_or input 0 0 ∷ [];
  length-digest = λ input. refl;
}

kex_make_key-key_stream_example :
    kex_make_key small_hash zeros (7 ∷ 8 ∷ []) 5 4 (1 ∷ [])
    ≡ returns (take 5 (key_stream small_hash 2 (7 ∷ 8 ∷ []) 4 (1 ∷ [])))
kex_make_key-key_stream_example =
    kex_make_key-key_stream small_hash zeros (7 ∷ 8 ∷ []) 5 4 (1 ∷ []) 2 length-zeros (omega arith)
      (omega arith) (omega arith)

key_example : take 5 (key_stream small_hash 2 (7 ∷ 8 ∷ []) 4 (1 ∷ [])) ≡ 4 ∷ 7 ∷ 4 ∷ 7 ∷ 6 ∷ []
key_example = refl
