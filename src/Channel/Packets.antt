-- ===== src/Channel/Packets.antt =====
-- The packets that the format_ functions of channel.c write are the messages that its handlers parse.
use lsh.Prelude.{
  ℕ, ◌+◌, ◌^◌, ◌<◌, ◌≡◌, refl, sym, ap, ◌∙◌, Bool, true, false, List, [], ◌∷◌, ◌++◌, append-nil,
  Option, none, some, if◌then◌else◌, ◌==◌, length, returns, arith,
}
use lsh.LshString.{uint32_bytes}
use lsh.LshString.Cells.{solid, length-solid, fill-all}
use lsh.Parse.{Parser, failed, parsed, parse_uint8, parse_uint32, parse_string, simple_buffer_init}
use lsh.Parse.Cursor.{Spec, Agrees, Refines, and_then, >>=-Refines, simple_buffer_init-View}
use lsh.Parse.Refine.{
  uint8, uint32, string, parse_uint8-Refines, parse_uint32-Refines, parse_string-Refines,
  parse_eod-View,
}
use lsh.Format.{Externals, is_option}
use lsh.Format.Render.{render, render_step, render_directive}
use lsh.Format.Whole.{ssh_format-render}
use lsh.Format.Packets.{string_bytes, read_uint32-bytes, string-bytes}
use lsh.Channel.Messages.{
  Message, window_adjust, channel_data, extended_data, eof, close, success, failure, fields,
  format_of, format_message, message_end, parse_number, parse_window_adjust, parse_data,
  parse_extended_data, parse_message,
}

-- The bytes of a message.
abbrev pub message_bytes : Message → List ℕ
message_bytes (window_adjust n add) = 93 ∷ (uint32_bytes n ++ uint32_bytes add)
message_bytes (channel_data n s) = 94 ∷ (uint32_bytes n ++ string_bytes s)
message_bytes (extended_data n type s) =
    95 ∷ (uint32_bytes n ++ (uint32_bytes type ++ string_bytes s))
message_bytes (eof n) = 96 ∷ uint32_bytes n
message_bytes (close n) = 97 ∷ uint32_bytes n
message_bytes (success n) = 99 ∷ uint32_bytes n
message_bytes (failure n) = 100 ∷ uint32_bytes n

-- Numbers of 32 bits, and data that fits in a packet with its fields.
abbrev pub IsSmall : Message → Type 0
IsSmall (window_adjust n add) = (n < 2 ^ 32) × (add < 2 ^ 32)
IsSmall (channel_data n s) = (n < 2 ^ 32) × (length s + 32 < 2 ^ 32)
IsSmall (extended_data n type s) = (n < 2 ^ 32) × (type < 2 ^ 32) × (length s + 32 < 2 ^ 32)
IsSmall (eof n) = n < 2 ^ 32
IsSmall (close n) = n < 2 ^ 32
IsSmall (success n) = n < 2 ^ 32
IsSmall (failure n) = n < 2 ^ 32

abbrev end : Message → Spec Message
end m r = if length r == 0 then some (m, r) else none

abbrev number : (ℕ → Message) → Spec Message
number f = and_then uint32 λ n. end (f n)

abbrev window_adjust_spec : Spec Message
window_adjust_spec = and_then uint32 λ n. and_then uint32 λ add. end (window_adjust n add)

abbrev data_spec : Spec Message
data_spec = and_then uint32 λ n. and_then string λ s. end (channel_data n s)

abbrev extended_data_spec : Spec Message
extended_data_spec =
    and_then uint32 λ n. and_then uint32 λ type. and_then string λ s. end (extended_data n type s)

-- The messages on lists of bytes.
abbrev message : Spec Message
message = and_then uint8 λ msg.
    if msg == 93
    then window_adjust_spec
    else if msg == 94
    then data_spec
    else if msg == 95
    then extended_data_spec
    else if msg == 96
    then number eof
    else if msg == 97
    then number close
    else if msg == 99
    then number success
    else if msg == 100
    then number failure
    else (λ r. none)

message_end-Refines : (m : Message) → Refines (message_end m) (end m)
message_end-Refines m b r v = rw (parse_eod-View v) (go (length r == 0))
  where
    go : (t : Bool) → Agrees (if t then parsed m b else failed b) (if t then some (m, r) else none)
    go true = (refl, v)
    go false = tt

if-Refines :
    (t : Bool) (p p' : Parser Message) (q q' : Spec Message)
    → Refines p q
    → Refines p' q'
    → Refines (if t then p else p') (if t then q else q')
if-Refines true p p' q q' h k = h
if-Refines false p p' q q' h k = k

failed-Refines : Refines {A = Message} failed (λ r. none)
failed-Refines b r v = tt

number-Refines : (f : ℕ → Message) → Refines (parse_number f) (number f)
number-Refines f =
    >>=-Refines parse_uint32 uint32 _ _ parse_uint32-Refines λ n. message_end-Refines (f n)

parse_message-Refines : Refines parse_message message
unfolding parse_message parse_window_adjust parse_data parse_extended_data
parse_message-Refines = >>=-Refines parse_uint8 uint8 _ _ parse_uint8-Refines λ msg.
    if-Refines (msg == 93) _ _ _ _
      (>>=-Refines parse_uint32 uint32 _ _ parse_uint32-Refines λ n.
        >>=-Refines parse_uint32 uint32 _ _ parse_uint32-Refines
          λ add. message_end-Refines (window_adjust n add))
      (if-Refines (msg == 94) _ _ _ _
        (>>=-Refines parse_uint32 uint32 _ _ parse_uint32-Refines λ n.
          >>=-Refines parse_string string _ _ parse_string-Refines
            λ s. message_end-Refines (channel_data n s))
        (if-Refines (msg == 95) _ _ _ _
          (>>=-Refines parse_uint32 uint32 _ _ parse_uint32-Refines λ n.
            >>=-Refines parse_uint32 uint32 _ _ parse_uint32-Refines λ type.
              >>=-Refines parse_string string _ _ parse_string-Refines
                λ s. message_end-Refines (extended_data n type s))
          (if-Refines (msg == 96) _ _ _ _ (number-Refines eof) (
            if-Refines (msg == 97) _ _ _ _ (number-Refines close) (
              if-Refines (msg == 99) _ _ _ _ (number-Refines success)
                (if-Refines (msg == 100) _ _ _ _ (number-Refines failure) failed-Refines))))))

number-bytes : (f : ℕ → Message) (n : ℕ) → n < 2 ^ 32 → number f (uint32_bytes n) ≡ some (f n, [])
number-bytes f n h = rw (read_uint32-bytes n h) refl

window_adjust-bytes :
    (n add : ℕ)
    → n < 2 ^ 32
    → add < 2 ^ 32
    → window_adjust_spec (uint32_bytes n ++ uint32_bytes add) ≡ some (window_adjust n add, [])
window_adjust-bytes n add h k = rw (read_uint32-bytes n h, read_uint32-bytes add k) refl

string-then :
    (g : List ℕ → Spec Message) (s : List ℕ)
    → length s < 2 ^ 32
    → and_then string g (string_bytes s) ≡ g s []
string-then g s h =
    ap {A = Option (List ℕ × List ℕ)} (λ y. elim y [ none ↦ none | some (t, r) ↦ g t r ])
      (ap {A = List ℕ} string (sym (append-nil (string_bytes s))) ∙ string-bytes s [] h)

data-bytes :
    (n : ℕ) (s : List ℕ)
    → n < 2 ^ 32
    → length s < 2 ^ 32
    → data_spec (uint32_bytes n ++ string_bytes s) ≡ some (channel_data n s, [])
data-bytes n s h k = rw (read_uint32-bytes n h) (string-then (λ t. end (channel_data n t)) s k)

extended_data-bytes :
    (n type : ℕ) (s : List ℕ)
    → n < 2 ^ 32
    → type < 2 ^ 32
    → length s < 2 ^ 32
    → extended_data_spec (uint32_bytes n ++ (uint32_bytes type ++ string_bytes s))
      ≡ some (extended_data n type s, [])
extended_data-bytes n type s h i k =
    rw (read_uint32-bytes n h, read_uint32-bytes type i)
      (string-then (λ t. end (extended_data n type t)) s k)

message-bytes : (m : Message) → IsSmall m → message (message_bytes m) ≡ some (m, [])
message-bytes (window_adjust n add) (h, k) = window_adjust-bytes n add h k
message-bytes (channel_data n s) (h, k) = data-bytes n s h (omega arith)
message-bytes (extended_data n type s) (h, i, k) = extended_data-bytes n type s h i (omega arith)
message-bytes (eof n) h = number-bytes eof n h
message-bytes (close n) h = number-bytes close n h
message-bytes (success n) h = number-bytes success n h
message-bytes (failure n) h = number-bytes failure n h

module _ (ext : Externals) where
  render-message :
      (m : Message) → render ext (format_of m) none (fields m) ≡ some (solid (message_bytes m))
  unfolding render render_step render_directive is_option
  render-message (window_adjust n add) = refl
  render-message (channel_data n s) = ground (arith, append-nil (solid s))
  render-message (extended_data n type s) = ground (arith, append-nil (solid s))
  render-message (eof n) = refl
  render-message (close n) = refl
  render-message (success n) = refl
  render-message (failure n) = refl

  message-small : (m : Message) → IsSmall m → length (message_bytes m) < 2 ^ 32
  message-small (window_adjust n add) h = omega arith
  message-small (channel_data n s) (h, k) = omega arith
  message-small (extended_data n type s) (h, i, k) = omega arith
  message-small (eof n) h = omega arith
  message-small (close n) h = omega arith
  message-small (success n) h = omega arith
  message-small (failure n) h = omega arith

  -- A message of small fields is written without a failed assertion, and its packet is parsed as that
  -- message to the end.
  pub parse_message-format_message :
      (fresh : ℕ → List ℕ) (m : Message)
      → ((n : ℕ) → length (fresh n) ≡ n)
      → IsSmall m
      → (packet : List ℕ) × (format_message ext fresh m ≡ returns packet)
        × Agrees (parse_message (simple_buffer_init (length packet) packet)) (some (m, []))
  unfolding format_message
  parse_message-format_message fresh m sized small = (
    message_bytes m,
    ssh_format-render ext fresh (format_of m) (fields m) (solid (message_bytes m)) sized
          (render-message m) (omega (arith, length-solid (message_bytes m), message-small m small))
        ∙ ap {A = List ℕ} returns (
            fill-all (message_bytes m) (fresh (length (solid (message_bytes m)))) (
              omega
                (arith, length-solid (message_bytes m), sized (length (solid (message_bytes m)))))),
    rw (message-bytes m small) at (
        parse_message-Refines (simple_buffer_init (length (message_bytes m)) (message_bytes m))
          (message_bytes m) (simple_buffer_init-View (message_bytes m) (message-small m small))),
  )
