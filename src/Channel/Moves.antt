-- ===== src/Channel/Moves.antt =====
-- channel.c: the handlers of the messages for an active channel, behind their parsing and the lookup of
-- the channel, and the sequences of these and of the program's calls.
use lsh.Prelude.{ℕ, ◌-◌, Bool, true, not, ◌||◌, ◌&&◌, List, [], ◌∷◌, if◌then◌else◌, ◌==◌, add32}
use lsh.Channel.{
  Channel, ChannelEvent, event_eof, event_close, event_success, event_failure, channel_event,
  send_adjust, connection_error, Effect, ◌>>=◌, channel_finished, channel_close,
  channel_maybe_close, channel_eof, channel_adjust_rec_window, channel_send_request,
  receive_data_common,
}

-- What the program does with a channel: the functions of channel.c, and a change of its sinks with the
-- check that follows it.
pub data Call : Type 0 where
  close : Call
  eof : Call
  adjust : ℕ → Call
  request : Bool → Call
  set_sinks : ℕ → Call

unfoldable pub perform : Call → Channel → Effect
perform close c = channel_close c
perform eof c = channel_eof c
perform (adjust n) c = channel_adjust_rec_window c n
perform (request want_reply) c = channel_send_request c want_reply
perform (set_sinks n) c = channel_maybe_close (record c { sinks = n })

unfoldable pub perform_all : List Call → Channel → Effect
perform_all [] c = (c, [])
perform_all (a ∷ l) c = perform a c >>= perform_all l

-- SSH_MSG_CHANNEL_WINDOW_ADJUST; the calls of the `send_adjust` method are left to it.
unfoldable pub handle_adjust_window : ℕ → Channel → Effect
handle_adjust_window size c =
    if c.received_close
    then (c, connection_error ∷ [])
    else if c.sent_close || c.sent_eof
    then (c, [])
    else (
      record c { send_window_size = add32 c.send_window_size size },
      if not (add32 c.send_window_size size == 0) && c.has_send_adjust
          then send_adjust size ∷ []
          else [],
    )

unfoldable pub handle_channel_data : List ℕ → Channel → Effect
handle_channel_data bytes c = receive_data_common c 0 bytes

-- Type 1 is SSH_EXTENDED_DATA_STDERR, and its data is CHANNEL_STDERR_DATA.
unfoldable pub handle_channel_extended_data : ℕ → List ℕ → Channel → Effect
handle_channel_extended_data type bytes c =
    if type == 1 then receive_data_common c 1 bytes else (c, [])

-- A message from the other side, or a call of the program. No message reaches a channel that is
-- deallocated.
pub data Move : Type 0 where
  call : Call → Move
  window_adjust : ℕ → Move
  data_message : List ℕ → Move
  extended_data_message : ℕ → List ℕ → Move
  eof_message : Move
  close_message : Move
  success_message : Move
  failure_message : Move

abbrev pub when_alive : (Channel → Effect) → Channel → Effect
when_alive f c = if c.alive then f c else (c, [])

-- `client` is the channel's event handler: the calls that it makes.
module _ (client : ChannelEvent → Channel → List Call) where
  -- `CHANNEL_EVENT`
  unfoldable pub raise : ChannelEvent → Channel → Effect
  raise e c = (c, channel_event e ∷ []) >>= perform_all (client e c)

  unfoldable pub handle_channel_eof : Channel → Effect
  handle_channel_eof c =
      if c.received_eof || c.received_close
      then (c, connection_error ∷ [])
      else raise event_eof (record c { received_eof = true }) >>= channel_maybe_close

  unfoldable pub handle_channel_close : Channel → Effect
  handle_channel_close c =
      if c.received_close
      then (c, connection_error ∷ [])
      else raise event_close (record c { received_close = true }) >>= λ d.
          if d.sent_close then channel_finished d else channel_close d

  unfoldable pub handle_channel_success : Channel → Effect
  handle_channel_success c =
      if c.pending_requests == 0
      then (c, [])
      else raise event_success (record c { pending_requests = c.pending_requests - 1 })

  unfoldable pub handle_channel_failure : Channel → Effect
  handle_channel_failure c =
      if c.pending_requests == 0
      then (c, [])
      else raise event_failure (record c { pending_requests = c.pending_requests - 1 })

  unfoldable pub move : Move → Channel → Effect
  move (call a) c = perform a c
  move (window_adjust n) c = when_alive (handle_adjust_window n) c
  move (data_message bytes) c = when_alive (handle_channel_data bytes) c
  move (extended_data_message type bytes) c = when_alive (handle_channel_extended_data type bytes) c
  move eof_message c = when_alive handle_channel_eof c
  move close_message c = when_alive handle_channel_close c
  move success_message c = when_alive handle_channel_success c
  move failure_message c = when_alive handle_channel_failure c

  unfoldable pub move_all : List Move → Channel → Effect
  move_all [] c = (c, [])
  move_all (m ∷ l) c = move m c >>= move_all l
