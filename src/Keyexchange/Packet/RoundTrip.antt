-- ===== src/Keyexchange/Packet/RoundTrip.antt =====
-- src/keyexchange.c: the packet of format_kexinit read by parse_kexinit.
use lsh.Prelude.{
  ℕ, suc, ◌+◌, ◌*◌, ◌%◌, ◌<◌, ◌≤◌, ◌^◌, ◌≡◌, refl, sym, ap, ◌∙◌, false, List, [], ◌∷◌, ◌++◌, Option,
  none, some, ◌==◌, length, ltb, take-append, drop-append, length-append, returns, arith, All,
  Bool-cases, inl, inr,
}
use mathlib.Core.List.{map}
use lsh.LshString.Cells.{solid, length-solid, fill-all}
use lsh.Parse.{read_uint32}
use lsh.Parse.Cursor.{and_then, and_then-some}
use lsh.Parse.Refine.{string}
use lsh.Parse.Atoms.{atom_of}
use lsh.Parse.Atoms.Names.{join, join_tail}
use lsh.Parse.Atoms.Join.{IsName, atoms_of-join}
use lsh.Parse.Atoms.Lists.{join-tail, atoms_of}
use lsh.Parse.Atoms.Whole.{atom_list}
use lsh.Format.{Externals}
use lsh.Format.Render.{names_bytes}
use lsh.Format.Whole.{ssh_format-render}
use lsh.Format.Packets.{string_bytes, string-bytes}
use lsh.Keyexchange.{Kexinit, kexinit_of, parse_kexinit}
use lsh.Keyexchange.Parsing.{
  cookie_spec, lists_spec, trailer_spec, kexinit_spec, value_of_spec, parse_kexinit_lem,
}
use lsh.Keyexchange.Packet.{
  lists_of, format_kexinit, lists_bytes, trailer_bytes, kexinit_bytes, render-cookie, render-lists,
  render-trailer,
}

-- An atom whose name is in the generated table, and can stand in a list of names.
abbrev pub IsKnown : Externals → (List ℕ → ℕ) → ℕ → Type 0
IsKnown ext lookup_atom a =
    ((a == 0) ≡ false) × (lookup_atom (ext.get_atom_name a) ≡ a) × IsName (ext.get_atom_name a)

abbrev pub IsSendable : Externals → (List ℕ → ℕ) → Kexinit → Type 0
IsSendable ext lookup_atom kex =
    (length kex.cookie ≡ 16)
    × (kex.first_kex_packet_follows < 256)
    × All (λ l. (length l ≤ 500) × All (IsKnown ext lookup_atom) l) (lists_of kex)

module _ (ext : Externals) (lookup_atom : List ℕ → ℕ) where
  names-later :
      (l : List ℕ) (n : ℕ)
      → (n == 0) ≡ false
      → All (IsKnown ext lookup_atom) l
      → names_bytes ext n l ≡ join_tail (map ext.get_atom_name l)
  names-later [] n z h = refl
  names-later (a ∷ l) n z ((h, e, k), hs) =
      rw (h, z)
        (ap {A = List ℕ} (λ t. b',' ∷ (ext.get_atom_name a ++ t))
            (names-later l (n + 1) (ground arith) hs)
          ∙ ap (◌∷◌ b',') (sym (join-tail (ext.get_atom_name a) (map ext.get_atom_name l))))

  names-join :
      (l : List ℕ)
      → All (IsKnown ext lookup_atom) l
      → names_bytes ext 0 l ≡ join (map ext.get_atom_name l)
  names-join [] h = refl
  names-join (a ∷ l) ((h, e, k), hs) =
      rw (h, names-later l 1 refl hs, join-tail (ext.get_atom_name a) (map ext.get_atom_name l))
        refl

  atoms-names :
      (l : List ℕ)
      → All (IsKnown ext lookup_atom) l
      → map (atom_of lookup_atom) (map ext.get_atom_name l) ≡ l
  atoms-names [] h = refl
  atoms-names (a ∷ l) ((h, e, (k, m, c)), hs) =
      let long : (length (ext.get_atom_name a) == 0) ≡ false = ground arith in
      rw (long, e, atoms-names l hs) refl

  names-IsName :
      (l : List ℕ) → All (IsKnown ext lookup_atom) l → All IsName (map ext.get_atom_name l)
  names-IsName [] h = tt
  names-IsName (a ∷ l) ((h, e, k), hs) = (k, names-IsName l hs)

  names-short :
      (l : List ℕ) (n : ℕ)
      → All (IsKnown ext lookup_atom) l
      → length (names_bytes ext n l) ≤ 65 * length l
  names-short [] n h = omega arith
  names-short (a ∷ l) n ((h, e, (k, m, c)), hs) = rw (h) (elim (Bool-cases (n == 0)) [
    | inl z ↦ rw (z) (
        omega (
          arith,
          length-append (ext.get_atom_name a) (names_bytes ext (n + 1) l),
          names-short l (n + 1) hs,
        ))
    | inr z ↦ rw (z) (
        omega (
          arith,
          length-append (ext.get_atom_name a) (names_bytes ext (n + 1) l),
          names-short l (n + 1) hs,
        ))
  ])

  length-map : (f : ℕ → List ℕ) (l : List ℕ) → length (map f l) ≡ length l
  length-map f [] = refl
  length-map f (a ∷ l) = ap suc (length-map f l)

  -- A list of known atoms as it stands in the packet is read as that list.
  atom_list-bytes :
      (l t : List ℕ)
      → length l ≤ 500
      → All (IsKnown ext lookup_atom) l
      → atom_list lookup_atom 500 (string_bytes (names_bytes ext 0 l) ++ t) ≡ some (l, t)
  atom_list-bytes l t h k =
      let small : length (names_bytes ext 0 l) < 2 ^ 32 = omega (arith, names-short l 0 k) in
      and_then-some string
        (λ s r. elim (atoms_of lookup_atom 500 s) [ none ↦ none | some found ↦ some (found, r) ])
        (string_bytes (names_bytes ext 0 l) ++ t) (names_bytes ext 0 l) t
        (string-bytes (names_bytes ext 0 l) t small)
      ∙ rw
          (
            names-join l k,
            atoms_of-join lookup_atom 500 (map ext.get_atom_name l) (names-IsName l k)
                (omega (arith, length-map ext.get_atom_name l)),
            atoms-names l k,
          )
          refl

  lists_spec-bytes :
      (lists : List (List ℕ)) (t : List ℕ)
      → All (λ l. (length l ≤ 500) × All (IsKnown ext lookup_atom) l) lists
      → lists_spec lookup_atom (length lists) (lists_bytes ext lists t) ≡ some (lists, t)
  lists_spec-bytes [] t h = refl
  lists_spec-bytes (l ∷ lists) t ((h, k), hs) =
      and_then-some (atom_list lookup_atom 500)
        (λ m. and_then (lists_spec lookup_atom (length lists)) (λ rest s. some (m ∷ rest, s)))
        (lists_bytes ext (l ∷ lists) t) l (lists_bytes ext lists t)
        (atom_list-bytes l (lists_bytes ext lists t) h k)
      ∙ and_then-some (lists_spec lookup_atom (length lists)) (λ rest s. some (l ∷ rest, s))
          (lists_bytes ext lists t) lists t (lists_spec-bytes lists t hs)

  lists-short :
      (lists : List (List ℕ)) (t : List ℕ)
      → All (λ l. (length l ≤ 500) × All (IsKnown ext lookup_atom) l) lists
      → length (lists_bytes ext lists t) ≤ 32504 * length lists + length t
  lists-short [] t h = omega arith
  lists-short (l ∷ lists) t ((h, k), hs) = omega (
    arith,
    length-append (string_bytes (names_bytes ext 0 l)) (lists_bytes ext lists t),
    names-short l 0 k,
    lists-short lists t hs,
  )

  cookie-bytes :
      (cookie t : List ℕ) → length cookie ≡ 16 → cookie_spec (20 ∷ (cookie ++ t)) ≡ some (cookie, t)
  cookie-bytes cookie t h =
      let longer : ltb (length (cookie ++ t)) 16 ≡ false = ground (arith, length-append cookie t) in
      rw (longer, ← h, take-append cookie t, drop-append cookie t) refl

  trailer-bytes :
      (kex : Kexinit)
      → kex.first_kex_packet_follows < 256
      → trailer_spec kex.cookie (lists_of kex) (trailer_bytes ext kex) ≡ some (kex, [])
  unfolding kexinit_of read_uint32
  trailer-bytes kex h =
      let same : kex.first_kex_packet_follows % 256 ≡ kex.first_kex_packet_follows = omega arith in
      rw (same) refl

  kexinit-bytes :
      (kex : Kexinit)
      → IsSendable ext lookup_atom kex
      → kexinit_spec lookup_atom (kexinit_bytes ext kex) ≡ some (kex, [])
  kexinit-bytes kex (h, f, hs) =
      and_then-some cookie_spec
        (λ cookie. and_then (lists_spec lookup_atom 10) (λ lists. trailer_spec cookie lists))
        (kexinit_bytes ext kex) kex.cookie (lists_bytes ext (lists_of kex) (trailer_bytes ext kex))
        (cookie-bytes kex.cookie (lists_bytes ext (lists_of kex) (trailer_bytes ext kex)) h)
      ∙ and_then-some (lists_spec lookup_atom 10) (λ lists. trailer_spec kex.cookie lists)
          (lists_bytes ext (lists_of kex) (trailer_bytes ext kex)) (lists_of kex)
          (trailer_bytes ext kex) (lists_spec-bytes (lists_of kex) (trailer_bytes ext kex) hs)
      ∙ trailer-bytes kex f

  kexinit-small :
      (kex : Kexinit) → IsSendable ext lookup_atom kex → length (kexinit_bytes ext kex) < 2 ^ 32
  kexinit-small kex (h, f, hs) = omega (
    arith,
    length-append kex.cookie (lists_bytes ext (lists_of kex) (trailer_bytes ext kex)),
    lists-short (lists_of kex) (trailer_bytes ext kex) hs,
  )

  pub format_kexinit-bytes :
      (fresh : ℕ → List ℕ) (kex : Kexinit)
      → ((n : ℕ) → length (fresh n) ≡ n)
      → IsSendable ext lookup_atom kex
      → format_kexinit ext fresh kex ≡ returns (kexinit_bytes ext kex)
  unfolding format_kexinit
  format_kexinit-bytes fresh kex sized good =
      ssh_format-render ext fresh _ _ (solid (kexinit_bytes ext kex)) sized
        (render-cookie ext kex.cookie _ _ _ (
          render-lists ext (lists_of kex) _ _ (trailer_bytes ext kex)
            (render-trailer ext kex.first_kex_packet_follows)))
        (omega (arith, length-solid (kexinit_bytes ext kex), kexinit-small kex good))
      ∙ ap {A = List ℕ} returns (
          fill-all (kexinit_bytes ext kex) (fresh (length (solid (kexinit_bytes ext kex)))) (
            omega (
              arith,
              length-solid (kexinit_bytes ext kex),
              sized (length (solid (kexinit_bytes ext kex))),
            )))

  -- A KEXINIT message of known algorithms, at most 500 in a list, with a cookie of 16 bytes and a
  -- flag of one byte is written without a failed assertion, and its packet is parsed as that message.
  pub parse_kexinit-format_kexinit :
      (fresh : ℕ → List ℕ) (kex : Kexinit)
      → ((n : ℕ) → length (fresh n) ≡ n)
      → IsSendable ext lookup_atom kex
      → (packet : List ℕ) × (format_kexinit ext fresh kex ≡ returns packet)
        × (parse_kexinit lookup_atom packet ≡ returns (some kex))
  parse_kexinit-format_kexinit fresh kex sized good = (
    kexinit_bytes ext kex,
    format_kexinit-bytes fresh kex sized good,
    parse_kexinit_lem lookup_atom (kexinit_bytes ext kex) (kexinit-small kex good)
        ∙ ap {A = Option (Kexinit × List ℕ)} (λ y. returns (value_of_spec y))
            (kexinit-bytes kex good),
  )
