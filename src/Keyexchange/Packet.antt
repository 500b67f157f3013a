-- ===== src/Keyexchange/Packet.antt =====
-- src/keyexchange.c: the packet that format_kexinit writes is the message that parse_kexinit reads.
pub mod RoundTrip
use lsh.Prelude.{
  ℕ, zero, suc, ◌+◌, ◌*◌, ◌%◌, ◌<◌, ◌≤◌, ◌^◌, ◌≡◌, refl, sym, ap, ◌∙◌, Bool, true, false, List, [],
  ◌∷◌, ◌++◌, append_assoc, append-nil, Option, none, some, if◌then◌else◌, ◌==◌, length, take, drop,
  ltb, leb, take-append, drop-append, length-append, Run, returns, arith, All, Bool-cases, inl, inr,
}
use mathlib.Core.List.{map}
use lsh.LshString.{uint32_bytes}
use lsh.LshString.Cells.{Cells, solid, length-solid, solid-append, fill-all}
use lsh.Parse.{read_uint32}
use lsh.Parse.Cursor.{Spec, and_then, and_then-some}
use lsh.Parse.Refine.{octets, uint8, string}
use lsh.Parse.Atoms.{atom_of}
use lsh.Parse.Atoms.Names.{join, join_tail}
use lsh.Parse.Atoms.Join.{IsName, atoms_of-join}
use lsh.Parse.Atoms.Lists.{join-tail, atoms_of}
use lsh.Parse.Atoms.Whole.{atom_list}
use lsh.Format.{Externals, Arg, int, bytes, atoms, is_option, set_option}
use lsh.Format.Write.{ssh_format}
use lsh.Format.Render.{render, render_step, render_directive, names_bytes}
use lsh.Format.Whole.{ssh_format-render}
use lsh.Format.Packets.{string_bytes, string-bytes}
use lsh.Keyexchange.{Kexinit, elements, kexinit_of, parse_kexinit}
use lsh.Keyexchange.Parsing.{
  cookie_spec, lists_spec, trailer_spec, kexinit_spec, value_of_spec, parse_kexinit_lem,
}

-- "%c%ls%A%A%A%A%A%A%A%A%A%A%c%i"
abbrev pub lists_format : List (List ℕ) → List ℕ → List ℕ
lists_format [] f = f
lists_format (l ∷ lists) f = b'%' ∷ b'A' ∷ lists_format lists f

abbrev pub lists_args : List (List ℕ) → List Arg → List Arg
lists_args [] args = args
lists_args (l ∷ lists) args = atoms l ∷ lists_args lists args

abbrev pub lists_of : Kexinit → List (List ℕ)
lists_of kex =
    kex.kex_algorithms
    ∷ kex.server_hostkey_algorithms
    ∷ (elements kex.parameters
        ++ (kex.languages_client_to_server ∷ kex.languages_server_to_client ∷ []))

unfoldable pub format_kexinit : Externals → (ℕ → List ℕ) → Kexinit → Run (List ℕ)
format_kexinit ext fresh kex =
    ssh_format ext fresh
      (b'%'
        ∷ b'c'
        ∷ b'%'
        ∷ b'l'
        ∷ b's'
        ∷ lists_format (lists_of kex) (b'%' ∷ b'c' ∷ b'%' ∷ b'i' ∷ []))
      (int 20
        ∷ bytes kex.cookie
        ∷ lists_args (lists_of kex) (int kex.first_kex_packet_follows ∷ int 0 ∷ []))

module _ (ext : Externals) where
  abbrev pub lists_bytes : List (List ℕ) → List ℕ → List ℕ
  lists_bytes [] t = t
  lists_bytes (l ∷ lists) t = string_bytes (names_bytes ext 0 l) ++ lists_bytes lists t

  abbrev pub trailer_bytes : Kexinit → List ℕ
  trailer_bytes kex = kex.first_kex_packet_follows % 256 ∷ uint32_bytes 0

  abbrev pub kexinit_bytes : Kexinit → List ℕ
  kexinit_bytes kex = 20 ∷ (kex.cookie ++ lists_bytes (lists_of kex) (trailer_bytes kex))

  solid-then : (s t : List ℕ) → solid s ++ solid t ≡ solid (s ++ t)
  solid-then s t = sym (solid-append s t)

  render-list :
      (l f : List ℕ) (args : List Arg) (t : List ℕ)
      → render ext f none args ≡ some (solid t)
      → render ext (b'%' ∷ b'A' ∷ f) none (atoms l ∷ args)
        ≡ some (solid (string_bytes (names_bytes ext 0 l) ++ t))
  unfolding render render_step render_directive is_option
  render-list l f args t e = rw (e, solid-append (names_bytes ext 0 l) t) refl

  pub render-lists :
      (lists : List (List ℕ)) (f : List ℕ) (args : List Arg) (t : List ℕ)
      → render ext f none args ≡ some (solid t)
      → render ext (lists_format lists f) none (lists_args lists args)
        ≡ some (solid (lists_bytes lists t))
  render-lists [] f args t e = e
  render-lists (l ∷ lists) f args t e =
      render-list l (lists_format lists f) (lists_args lists args) (lists_bytes lists t)
        (render-lists lists f args t e)

  pub render-cookie :
      (cookie f : List ℕ) (args : List Arg) (t : List ℕ)
      → render ext f none args ≡ some (solid t)
      → render ext (b'%' ∷ b'c' ∷ b'%' ∷ b'l' ∷ b's' ∷ f) none (int 20 ∷ bytes cookie ∷ args)
        ≡ some (solid (20 ∷ (cookie ++ t)))
  unfolding render render_step render_directive is_option set_option
  render-cookie cookie f args t e = rw (e, solid-append cookie t) refl

  pub render-trailer :
      (follows : ℕ)
      → render ext (b'%' ∷ b'c' ∷ b'%' ∷ b'i' ∷ []) none (int follows ∷ int 0 ∷ [])
        ≡ some (solid (follows % 256 ∷ uint32_bytes 0))
  unfolding render render_step render_directive is_option
  render-trailer follows = refl
