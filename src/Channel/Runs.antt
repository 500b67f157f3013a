-- ===== src/Channel/Runs.antt =====
-- channel.c on a channel whose client sends EOF and CLOSE when it receives EOF.
use lsh.Prelude.{ℕ, ◌+◌, ◌≤◌, ◌≡◌, refl, true, false, List, [], ◌∷◌, length, some, returns, arith}
use lsh.Parse.{simple_buffer_init}
use lsh.Parse.Cursor.{Agrees}
use lsh.Format.Runs.{zeros, small_externals, length-zeros}
use lsh.Channel.Messages.{channel_data, format_message, parse_message}
use lsh.Channel.Packets.{parse_message-format_message}
use lsh.Channel.{
  Channel, ChannelEvent, event_eof, data_packet, receive_data_common, channel_transmit_data,
  channel_adjust_rec_window,
}
use lsh.Channel.Moves.{
  Call, eof, Move, call, close_message, eof_message, data_message, move_all, handle_adjust_window,
}
use lsh.Channel.Close.{Counts, IsValid, move_all-Counts}
use lsh.Channel.Window.{
  delivered, granted, received, receive_data_common_lem, receive-adjust, transmit-adjust,
}

abbrev fresh : Channel
fresh = record {
  alive = true;
  local_channel_number = 0;
  remote_channel_number = 5;
  rec_window_size = 10;
  rec_max_packet = 4;
  send_window_size = 2;
  send_max_packet = 8;
  sent_close = false;
  received_close = false;
  sent_eof = false;
  received_eof = false;
  no_wait_for_eof = false;
  sinks = 0;
  pending_requests = 0;
  has_receive = true;
  has_send_adjust = false;
}

abbrev client : ChannelEvent → Channel → List Call
client event_eof c = eof ∷ []
client _ c = []

abbrev moves : List Move
moves = data_message (1 ∷ 2 ∷ []) ∷ eof_message ∷ close_message ∷ call eof ∷ []

move_all-Counts_example :
    Counts fresh (move_all client moves fresh) × IsValid (move_all client moves fresh).0
move_all-Counts_example = move_all-Counts client moves fresh refl

receive_data_common_lem_example :
    (received 0 (receive_data_common fresh 0 (1 ∷ 2 ∷ 3 ∷ 4 ∷ 5 ∷ [])).1 ≡ 1 ∷ 2 ∷ 3 ∷ 4 ∷ [])
    × ((receive_data_common fresh 0 (1 ∷ 2 ∷ 3 ∷ 4 ∷ 5 ∷ [])).0.rec_window_size
          + delivered (receive_data_common fresh 0 (1 ∷ 2 ∷ 3 ∷ 4 ∷ 5 ∷ [])).1
        ≡ 10)
    × (delivered (receive_data_common fresh 0 (1 ∷ 2 ∷ 3 ∷ 4 ∷ 5 ∷ [])).1 ≤ 4)
    × (delivered (receive_data_common fresh 0 (1 ∷ 2 ∷ 3 ∷ 4 ∷ 5 ∷ [])).1 ≤ 5)
receive_data_common_lem_example =
    receive_data_common_lem fresh 0 (1 ∷ 2 ∷ 3 ∷ 4 ∷ 5 ∷ []) (omega arith)

receive-adjust_example :
    let (d, out) = receive_data_common fresh 0 (1 ∷ 2 ∷ 3 ∷ 4 ∷ 5 ∷ []) in
    let (e, out') = channel_adjust_rec_window d (delivered out) in
    (e.rec_window_size ≡ 10) × (granted out' ≡ delivered out)
receive-adjust_example = receive-adjust fresh 0 (1 ∷ 2 ∷ 3 ∷ 4 ∷ 5 ∷ []) (omega arith) refl

transmit-adjust_example :
    let given = (handle_adjust_window 3 fresh).0 in
    channel_transmit_data given (1 ∷ 2 ∷ 3 ∷ 4 ∷ [])
    ≡ returns (record given { send_window_size = 1 }, data_packet 5 (1 ∷ 2 ∷ 3 ∷ 4 ∷ []) ∷ [])
transmit-adjust_example =
    transmit-adjust fresh 3 (1 ∷ 2 ∷ 3 ∷ 4 ∷ []) refl (omega arith) (omega arith) (omega arith)

parse_message-format_message_example :
    (packet : List ℕ) × (format_message small_externals zeros (channel_data 5 (1 ∷ 2 ∷ []))
      ≡ returns packet)
    × Agrees
        (parse_message (simple_buffer_init (length packet) packet))
        (some (channel_data 5 (1 ∷ 2 ∷ []), []))
parse_message-format_message_example =
    parse_message-format_message small_externals zeros (channel_data 5 (1 ∷ 2 ∷ [])) length-zeros
      (omega arith, omega arith)
