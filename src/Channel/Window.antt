-- ===== src/Channel/Window.antt =====
-- channel.c: flow control, in both directions.
use lsh.Prelude.{
  ℕ, ◌+◌, ◌-◌, refl, if◌then◌else◌, ◌==◌, ◌&&◌, ◌++◌, not, true, Bool-cases, inl, inr, ap,
  append-nil, ◌≤◌, ◌<◌, ◌^◌, ◌≡◌, ◌∙◌, sym, Bool, false, ◌||◌, List, [], ◌∷◌, arith, length, take,
  length-take, returns,
}
use Prim.Native.Nat.{min}
use lsh.Channel.{
  Channel, Output, receive, window_adjust_packet, data_packet, send_window_adjust,
  channel_adjust_rec_window, receive_data_common, channel_transmit_data, at_most,
}
use lsh.Channel.Moves.{handle_adjust_window}

-- Bytes that are passed on, and bytes by which the other side's window is raised.
abbrev pub delivered : List Output → ℕ
delivered [] = 0
delivered (receive type bytes ∷ l) = length bytes + delivered l
delivered (_ ∷ l) = delivered l

abbrev pub granted : List Output → ℕ
granted [] = 0
granted (window_adjust_packet n add ∷ l) = add + granted l
granted (_ ∷ l) = granted l

-- The bytes of one type that are passed on.
abbrev pub received : ℕ → List Output → List ℕ
received type [] = []
received type (receive t bytes ∷ l) = (if t == type then bytes else []) ++ received type l
received type (_ ∷ l) = received type l

-- Data is taken by a channel with a receiver, where neither side has ended the direction.
abbrev pub accepts : Channel → Bool
accepts c = c.has_receive && not (c.received_eof || (c.received_close || c.sent_close))

-- A channel that takes data passes on the front of it, cut to the window and to the largest packet; one
-- that does not passes on nothing. The window shrinks by just what is passed on, which is at most the
-- largest packet and the data.
pub receive_data_common_lem :
    (c : Channel) (type : ℕ) (bytes : List ℕ)
    → c.rec_window_size < 2 ^ 32
    → (received type (receive_data_common c type bytes).1 ≡ (
        if accepts c
        then take (min c.rec_window_size (min c.rec_max_packet (length bytes))) bytes
        else []))
      × ((receive_data_common c type bytes).0.rec_window_size
            + delivered (receive_data_common c type bytes).1
          ≡ c.rec_window_size)
      × (delivered (receive_data_common c type bytes).1 ≤ c.rec_max_packet)
      × (delivered (receive_data_common c type bytes).1 ≤ length bytes)
unfolding receive_data_common
receive_data_common_lem c type bytes h =
    (taken, ground (arith, cut), ground (arith, cut), ground (arith, cut))
  where
    n : ℕ
    n = at_most c.rec_window_size (at_most c.rec_max_packet (length bytes))

    cut : length (take n bytes) ≡ n
    cut = ground (arith, length-take n bytes)

    smallest : min c.rec_window_size (min c.rec_max_packet (length bytes)) ≡ n
    smallest = ground arith

    taken : received type (receive_data_common c type bytes).1 ≡ (
        if accepts c
        then take (min c.rec_window_size (min c.rec_max_packet (length bytes))) bytes
        else [])
    taken = elim (Bool-cases (not c.has_receive || (c.received_eof || c.received_close))) [
      | inl e ↦ let a : accepts c ≡ false = ground arith in rw (a, e) refl
      | inr e ↦ elim (Bool-cases c.sent_close) [
        | inl closed ↦ let a : accepts c ≡ false = ground arith in rw (a, e, closed) refl
        | inr unsent ↦
            let a : accepts c ≡ true = ground arith in
            elim (Bool-cases (n == 0)) [
              | inl z ↦
                  let none_left : n ≡ 0 = ground arith in
                  rw (a, e, unsent, z) (sym (ap {A = ℕ} (λ k. take k bytes) (smallest ∙ none_left)))
              | inr z ↦
                  let same : (type == type) ≡ true = ground arith in
                  rw (a, e, unsent, z, same)
                    (append-nil (take n bytes) ∙ sym (ap {A = ℕ} (λ k. take k bytes) smallest))
            ]
      ]
    ]

adjust-granted :
    (d : Channel) (n : ℕ)
    → (d.received_eof || (d.received_close || d.sent_close)) ≡ false
    → d.rec_window_size + n < 2 ^ 32
    → ((channel_adjust_rec_window d n).0.rec_window_size ≡ d.rec_window_size + n)
      × (granted (channel_adjust_rec_window d n).1 ≡ n)
unfolding channel_adjust_rec_window send_window_adjust
adjust-granted d n free small = (ground arith, ground arith)

receive-flags :
    (c : Channel) (type : ℕ) (bytes : List ℕ)
    → (c.received_eof || (c.received_close || c.sent_close)) ≡ (
        (receive_data_common c type bytes).0.received_eof
        || ((receive_data_common c type bytes).0.received_close
            || (receive_data_common c type bytes).0.sent_close))
unfolding receive_data_common
receive-flags c type bytes = ground arith

-- On a channel that is open in both directions, the window that data has used up is given back by
-- the adjustment for the bytes that were passed on: the two windows are equal, and so are the
-- bytes granted and delivered.
pub receive-adjust :
    (c : Channel) (type : ℕ) (bytes : List ℕ)
    → c.rec_window_size < 2 ^ 32
    → (c.received_eof || (c.received_close || c.sent_close)) ≡ false
    → let (d, out) = receive_data_common c type bytes in
      let (e, out') = channel_adjust_rec_window d (delivered out) in
      (e.rec_window_size ≡ c.rec_window_size) × (granted out' ≡ delivered out)
receive-adjust c type bytes h free =
    let (d, out) = receive_data_common c type bytes in
    let (_, kept, _, _) = receive_data_common_lem c type bytes h in
    let (restored, equal) =
      adjust-granted d (delivered out) (sym (receive-flags c type bytes) ∙ free)
        (omega (arith, kept)) in
    (restored ∙ kept, equal)

flags : (a b : Bool) → (a || b) ≡ false → (a ≡ false) × (b ≡ false)
flags a b h = (ground arith, ground arith)

-- What the other side has granted can be sent: behind a window adjustment, data that fits in the sum
-- and in the largest packet is written without a failed assertion, and the window that is left is
-- the sum less the data.
pub transmit-adjust :
    (c : Channel) (n : ℕ) (bytes : List ℕ)
    → (c.received_close || (c.sent_close || c.sent_eof)) ≡ false
    → c.send_window_size + n < 2 ^ 32
    → length bytes ≤ c.send_window_size + n
    → length bytes ≤ c.send_max_packet
    → let given = (handle_adjust_window n c).0 in
      channel_transmit_data given bytes
      ≡ returns (
        record given { send_window_size = c.send_window_size + n - length bytes },
        data_packet c.remote_channel_number bytes ∷ [],
      )
unfolding channel_transmit_data handle_adjust_window
transmit-adjust c n bytes free small fits packet =
    let (received, other) = flags c.received_close (c.sent_close || c.sent_eof) free in
    rw (received, other) (ground arith)
