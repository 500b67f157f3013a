-- ===== src/LshString.antt =====
-- src/lsh_string.c: the operations on the bytes of a string that check their bounds. A string is the
-- list of its bytes; the zero byte that the C code keeps behind them is not in the list, so the
-- assertion that it is still zero holds of itself.
pub mod Cells
use lsh.Prelude.{
  ℕ, zero, suc, ◌+◌, ◌-◌, ◌/◌, ◌%◌, Bool, List, [], ◌∷◌, if◌then◌else◌, ltb, leb, ◌==◌, not, ◌&&◌,
  length, take, drop, Run, aborted, returns,
}

-- memcpy: the bytes from the front of a list on are replaced.
abbrev pub overlay : List ℕ → List ℕ → List ℕ
overlay [] s = s
overlay (x ∷ xs) [] = []
overlay (x ∷ xs) (y ∷ s) = x ∷ overlay xs s

abbrev pub write_at : List ℕ → ℕ → List ℕ → List ℕ
write_at s zero xs = overlay xs s
write_at [] (suc start) xs = []
write_at (y ∷ s) (suc start) xs = y ∷ write_at s start xs

-- `ASSERT_ROOM`
abbrev pub has_room : List ℕ → ℕ → ℕ → Bool
has_room s start l = leb start (length s) && leb l (length s - start)

unfoldable pub lsh_string_putc : List ℕ → ℕ → ℕ → Run (List ℕ)
lsh_string_putc s i c = if ltb i (length s) then returns (write_at s i (c ∷ [])) else aborted

unfoldable pub lsh_string_write : List ℕ → ℕ → List ℕ → Run (List ℕ)
lsh_string_write s start bytes =
    if has_room s start (length bytes) then returns (write_at s start bytes) else aborted

-- `WRITE_UINT32`: the most significant byte first.
abbrev pub uint32_bytes : ℕ → List ℕ
uint32_bytes n = (n / 16777216 % 256) ∷ (n / 65536 % 256) ∷ (n / 256 % 256) ∷ (n % 256) ∷ []

unfoldable pub lsh_string_write_uint32 : List ℕ → ℕ → ℕ → Run (List ℕ)
lsh_string_write_uint32 s start n =
    if has_room s start 4 then returns (write_at s start (uint32_bytes n)) else aborted

-- memmove within one string.
unfoldable pub lsh_string_move : List ℕ → ℕ → ℕ → ℕ → Run (List ℕ)
lsh_string_move s start length from =
    if has_room s start length && not (start == from)
    then returns (write_at s start (take length (drop from s)))
    else aborted

unfoldable pub lsh_string_trunc : List ℕ → ℕ → Run (List ℕ)
lsh_string_trunc s n = if leb n (length s) then returns (take n s) else aborted
