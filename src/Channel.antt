-- ===== src/Channel.antt =====
-- src/channel.c: one channel, from its confirmation on. Each function gives the channel that it leaves
-- and what it does to the outside, in order.
pub mod Moves
pub mod Close
pub mod Window
pub mod Messages
pub mod Packets
pub mod Runs
use lsh.Prelude.{
  ℕ, zero, suc, ◌+◌, ◌-◌, Bool, true, false, not, ◌||◌, ◌&&◌, List, [], ◌∷◌, ◌++◌, if◌then◌else◌,
  ◌==◌, ltb, leb, length, take, add32, sub32, Run, aborted, returns,
}

-- `flags` is one field for each value of enum channel_flag. `has_receive` and `has_send_adjust` say
-- that the method is not NULL.
pub record Channel : Type 0 where
  pub alive : Bool
  pub local_channel_number : ℕ
  pub remote_channel_number : ℕ
  pub rec_window_size : ℕ
  pub rec_max_packet : ℕ
  pub send_window_size : ℕ
  pub send_max_packet : ℕ
  pub sent_close : Bool
  pub received_close : Bool
  pub sent_eof : Bool
  pub received_eof : Bool
  pub no_wait_for_eof : Bool
  pub sinks : ℕ
  pub pending_requests : ℕ
  pub has_receive : Bool
  pub has_send_adjust : Bool

pub data ChannelEvent : Type 0 where
  event_eof : ChannelEvent
  event_close : ChannelEvent
  event_success : ChannelEvent
  event_failure : ChannelEvent

-- Packets that are written, with their fields; methods that are invoked; and calls for the connection.
pub data Output : Type 0 where
  channel_close_packet : ℕ → Output
  channel_eof_packet : ℕ → Output
  window_adjust_packet : ℕ → ℕ → Output
  data_packet : ℕ → List ℕ → Output
  extended_data_packet : ℕ → ℕ → List ℕ → Output
  request_packet : ℕ → Bool → Output
  channel_event : ChannelEvent → Output
  receive : ℕ → List ℕ → Output
  send_adjust : ℕ → Output
  dealloc_channel : ℕ → Output
  connection_error : Output

abbrev pub Effect : Type 0
Effect = Channel × List Output

infixl 5 ◌>>=◌
abbrev pub ◌>>=◌ : Effect → (Channel → Effect) → Effect
(c, out) >>= f = ((f c).0, out ++ (f c).1)

-- The connection's part, for the output dealloc_channel, is finish_channel of Connection.
unfoldable pub channel_finished : Channel → Effect
channel_finished c =
    if not c.alive
    then (c, [])
    else (record c { alive = false }, dealloc_channel c.local_channel_number ∷ [])

unfoldable pub channel_close : Channel → Effect
channel_close c =
    if c.sent_close
    then (c, [])
    else (record c { sent_close = true }, channel_close_packet c.remote_channel_number ∷ [])
      >>= λ d. if d.received_close then channel_finished d else (d, [])

unfoldable pub channel_maybe_close : Channel → Effect
channel_maybe_close c =
    if not c.sent_close && (c.sent_eof && (c.no_wait_for_eof || (c.received_eof && c.sinks == 0)))
    then channel_close c
    else (c, [])

unfoldable pub channel_eof : Channel → Effect
channel_eof c =
    if c.sent_eof || (c.sent_close || c.received_close)
    then (c, [])
    else (record c { sent_eof = true }, channel_eof_packet c.remote_channel_number ∷ [])
      >>= channel_maybe_close

unfoldable pub send_window_adjust : Channel → ℕ → Effect
send_window_adjust c add = (
  record c { rec_window_size = add32 c.rec_window_size add },
  window_adjust_packet c.remote_channel_number add ∷ [],
)

unfoldable pub channel_adjust_rec_window : Channel → ℕ → Effect
channel_adjust_rec_window c written =
    if not (written == 0) && not (c.received_eof || (c.received_close || c.sent_close))
    then send_window_adjust c written
    else (c, [])

unfoldable pub channel_start_receive : Channel → ℕ → Effect
channel_start_receive c initial =
    if ltb c.rec_window_size initial
    then send_window_adjust c (sub32 initial c.rec_window_size)
    else (c, [])

-- The result of channel_send_request is whether the channel has not sent a CLOSE.
unfoldable pub channel_send_request : Channel → Bool → Effect
channel_send_request c want_reply = if c.sent_close then (c, []) else (
  record c {
    pending_requests = if want_reply then add32 c.pending_requests 1 else c.pending_requests;
  },
  request_packet c.remote_channel_number want_reply ∷ [],
)

unfoldable pub channel_transmit_data : Channel → List ℕ → Run Effect
channel_transmit_data c bytes =
    if leb (length bytes) c.send_window_size && leb (length bytes) c.send_max_packet
    then returns (
      record c { send_window_size = sub32 c.send_window_size (length bytes) },
      data_packet c.remote_channel_number bytes ∷ [],
    )
    else aborted

unfoldable pub channel_transmit_extended : Channel → ℕ → List ℕ → Run Effect
channel_transmit_extended c type bytes =
    if leb (length bytes) c.send_window_size && leb (length bytes) c.send_max_packet
    then returns (
      record c { send_window_size = sub32 c.send_window_size (length bytes) },
      extended_data_packet c.remote_channel_number type bytes ∷ [],
    )
    else aborted

abbrev pub at_most : ℕ → ℕ → ℕ
at_most limit n = if ltb limit n then limit else n

-- The packet's data as far as the channel takes it. A closed channel is only logged.
unfoldable pub receive_data_common : Channel → ℕ → List ℕ → Effect
receive_data_common c type bytes =
    if not c.has_receive || (c.received_eof || c.received_close)
    then (c, [])
    else if c.sent_close
    then (c, [])
    else let n = at_most c.rec_window_size (at_most c.rec_max_packet (length bytes)) in
      if n == 0 then (c, []) else (
        record c { rec_window_size = sub32 c.rec_window_size n },
        receive type (take n bytes) ∷ [],
      )
