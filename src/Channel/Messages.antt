-- ===== src/Channel/Messages.antt =====
-- channel.c: the packets of the messages for an active channel, as the format_ functions write them and as
-- the handlers of channel_packet_handler parse them.
use lsh.Prelude.{ℕ, List, [], ◌∷◌, if◌then◌else◌, ◌==◌, Run}
use lsh.Parse.{failed, parsed, Parser, ◌>>=◌, parse_uint8, parse_uint32, parse_string, parse_eod}
use lsh.Format.{Externals, Arg, int, bytes}
use lsh.Format.Write.{ssh_format}

-- The first field of each is the number of the channel.
pub data Message : Type 0 where
  window_adjust : ℕ → ℕ → Message
  channel_data : ℕ → List ℕ → Message
  extended_data : ℕ → ℕ → List ℕ → Message
  eof : ℕ → Message
  close : ℕ → Message
  success : ℕ → Message
  failure : ℕ → Message

-- The formats `%c%i`, `%c%i%i`, `%c%i%s` and `%c%i%i%s`.
abbrev pub fields : Message → List Arg
fields (window_adjust n add) = int 93 ∷ int n ∷ int add ∷ []
fields (channel_data n s) = int 94 ∷ int n ∷ bytes s ∷ []
fields (extended_data n type s) = int 95 ∷ int n ∷ int type ∷ bytes s ∷ []
fields (eof n) = int 96 ∷ int n ∷ []
fields (close n) = int 97 ∷ int n ∷ []
fields (success n) = int 99 ∷ int n ∷ []
fields (failure n) = int 100 ∷ int n ∷ []

abbrev pub format_of : Message → List ℕ
format_of (window_adjust n add) = b'%' ∷ b'c' ∷ b'%' ∷ b'i' ∷ b'%' ∷ b'i' ∷ []
format_of (channel_data n s) = b'%' ∷ b'c' ∷ b'%' ∷ b'i' ∷ b'%' ∷ b's' ∷ []
format_of (extended_data n type s) = b'%' ∷ b'c' ∷ b'%' ∷ b'i' ∷ b'%' ∷ b'i' ∷ b'%' ∷ b's' ∷ []
format_of _ = b'%' ∷ b'c' ∷ b'%' ∷ b'i' ∷ []

unfoldable pub format_message : Externals → (ℕ → List ℕ) → Message → Run (List ℕ)
format_message ext fresh m = ssh_format ext fresh (format_of m) (fields m)

-- `parse_eod(buffer)`, behind the fields.
abbrev pub message_end : Message → Parser Message
message_end m b = if parse_eod b then parsed m b else failed b

abbrev pub parse_number : (ℕ → Message) → Parser Message
parse_number f = parse_uint32 >>= λ n. message_end (f n)

unfoldable pub parse_window_adjust : Parser Message
parse_window_adjust = do n ← parse_uint32; add ← parse_uint32; message_end (window_adjust n add)

unfoldable pub parse_data : Parser Message
parse_data = do n ← parse_uint32; s ← parse_string; message_end (channel_data n s)

unfoldable pub parse_extended_data : Parser Message
parse_extended_data = do
  n ← parse_uint32
  type ← parse_uint32
  s ← parse_string
  message_end (extended_data n type s)

-- The switch of channel_packet_handler, for these messages.
unfoldable pub parse_message : Parser Message
parse_message = parse_uint8 >>= λ msg.
    if msg == 93
    then parse_window_adjust
    else if msg == 94
    then parse_data
    else if msg == 95
    then parse_extended_data
    else if msg == 96
    then parse_number eof
    else if msg == 97
    then parse_number close
    else if msg == 99
    then parse_number success
    else if msg == 100
    then parse_number failure
    else failed
