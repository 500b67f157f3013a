-- ===== src/Parse/Runs.antt =====
-- parse.c on concrete packets.
use lsh.Prelude.{ℕ, ◌^◌, ◌<◌, ◌≡◌, refl, List, [], ◌∷◌, ◌++◌, some, arith, length, false}
use lsh.Parse.{SimpleBuffer, advance}
use lsh.Parse.Cursor.{View}
use lsh.Parse.Atoms.{parse_atoms, parse_atom_list}
use lsh.Parse.Atoms.Lists.{Outcome, parse_atoms_lem}
use lsh.Parse.Atoms.Whole.{AgreesRun, atom_list, parse_atom_list-Refines}
use lsh.Parse.Utf8.{parse_utf8, char, excluded}
use lsh.Parse.Utf8.Encode.{utf8}
use lsh.Parse.Utf8.RoundTrip.{parse_utf8-utf8}
use lsh.Parse.Utf8.Sound.{parse_utf8_sound}

-- `a,bc` in a table that numbers names by their length.
abbrev names : List ℕ
names = b'a' ∷ b',' ∷ b'b' ∷ b'c' ∷ []

abbrev names_packet : SimpleBuffer
names_packet = record { capacity = 9; pos = 0; bytes = 0 ∷ 0 ∷ 0 ∷ 4 ∷ names ++ (1 ∷ []) }

names_packet-View : View names_packet (0 ∷ 0 ∷ 0 ∷ 4 ∷ names ++ (1 ∷ []))
names_packet-View = record { beyond = []; at = refl; room = refl; small = omega arith }

names_buffer-View : View (record { capacity = 4; pos = 0; bytes = names }) names
names_buffer-View = record { beyond = []; at = refl; room = refl; small = omega arith }

parse_atoms_lem_example :
    Outcome
      (parse_atoms length 5 (record { capacity = 4; pos = 0; bytes = names }))
      (some (1 ∷ 2 ∷ []))
parse_atoms_lem_example =
    parse_atoms_lem length 5 (record { capacity = 4; pos = 0; bytes = names }) names
      names_buffer-View (omega arith)

parse_atom_list-Refines_example :
    AgreesRun
      (parse_atom_list length 5 names_packet)
      (atom_list length 5 (0 ∷ 0 ∷ 0 ∷ 4 ∷ names ++ (1 ∷ [])))
parse_atom_list-Refines_example =
    parse_atom_list-Refines length 5 names_packet (0 ∷ 0 ∷ 0 ∷ 4 ∷ names ++ (1 ∷ []))
      names_packet-View (omega arith)

-- The euro sign, and a letter behind it.
abbrev euro_buffer : SimpleBuffer
euro_buffer = record { capacity = 4; pos = 0; bytes = 0xE2 ∷ 0x82 ∷ 0xAC ∷ b'x' ∷ [] }

euro_buffer-View : View euro_buffer (0xE2 ∷ 0x82 ∷ 0xAC ∷ b'x' ∷ [])
euro_buffer-View = record { beyond = []; at = refl; room = refl; small = omega arith }

parse_utf8-utf8_example :
    parse_utf8 euro_buffer
    ≡ char 0x20AC (length (utf8 0x20AC)) (advance (length (utf8 0x20AC)) euro_buffer)
unfolding utf8 excluded
parse_utf8-utf8_example =
    parse_utf8-utf8 euro_buffer 0x20AC (b'x' ∷ []) euro_buffer-View (omega arith) refl

parse_utf8-sound_example :
    (t : List ℕ) × ((0xE2 ∷ 0x82 ∷ 0xAC ∷ b'x' ∷ []) ≡ utf8 0x20AC ++ t)
    × (length (utf8 0x20AC) ≡ length (utf8 0x20AC))
    × (advance (length (utf8 0x20AC)) euro_buffer ≡ advance (length (utf8 0x20AC)) euro_buffer)
    × (0x20AC < 2 ^ 31)
    × (excluded 0x20AC ≡ false)
parse_utf8-sound_example =
    parse_utf8_sound euro_buffer (advance (length (utf8 0x20AC)) euro_buffer)
      (0xE2 ∷ 0x82 ∷ 0xAC ∷ b'x' ∷ []) 0x20AC (length (utf8 0x20AC)) euro_buffer-View
      (omega arith, (omega arith, (omega arith, (omega arith, tt)))) parse_utf8-utf8_example
