-- ===== src/Channel/Close.antt =====
-- The EOF and CLOSE messages of a channel, over any sequence of messages and calls.
use lsh.Prelude.{
  ℕ, suc, ◌+◌, ◌-◌, ◌≡◌, refl, ◌∙◌, Bool, true, false, not, ◌||◌, ◌&&◌, List, [], ◌∷◌, ◌++◌,
  if◌then◌else◌, ◌==◌, arith, Bool-cases, inl, inr,
}
use lsh.Channel.{
  Channel, ChannelEvent, event_eof, event_close, event_success, event_failure, Output,
  channel_close_packet, channel_eof_packet, dealloc_channel, channel_event, Effect, ◌>>=◌,
  channel_finished, channel_close, channel_maybe_close, channel_eof, send_window_adjust,
  channel_adjust_rec_window, channel_send_request, receive_data_common,
}
use lsh.Channel.Moves.{
  Call, close, eof, adjust, request, set_sinks, perform, perform_all, raise, handle_adjust_window,
  handle_channel_data, handle_channel_extended_data, handle_channel_eof, handle_channel_close,
  handle_channel_success, handle_channel_failure, Move, call, window_adjust, data_message,
  extended_data_message, eof_message, close_message, success_message, failure_message, when_alive,
  move, move_all,
}

abbrev pub bit : Bool → ℕ
bit true = 1
bit false = 0

-- The CLOSE and EOF packets that are written, and the deallocations.
abbrev pub closes : List Output → ℕ
closes [] = 0
closes (channel_close_packet n ∷ l) = suc (closes l)
closes (_ ∷ l) = closes l

abbrev pub eofs : List Output → ℕ
eofs [] = 0
eofs (channel_eof_packet n ∷ l) = suc (eofs l)
eofs (_ ∷ l) = eofs l

abbrev pub deallocs : List Output → ℕ
deallocs [] = 0
deallocs (dealloc_channel n ∷ l) = suc (deallocs l)
deallocs (_ ∷ l) = deallocs l

closes-append : (xs ys : List Output) → closes (xs ++ ys) ≡ closes xs + closes ys
closes-append [] ys = omega arith
closes-append (channel_close_packet n ∷ xs) ys = omega (arith, closes-append xs ys)
closes-append (_ ∷ xs) ys = closes-append xs ys

eofs-append : (xs ys : List Output) → eofs (xs ++ ys) ≡ eofs xs + eofs ys
eofs-append [] ys = omega arith
eofs-append (channel_eof_packet n ∷ xs) ys = omega (arith, eofs-append xs ys)
eofs-append (_ ∷ xs) ys = eofs-append xs ys

deallocs-append : (xs ys : List Output) → deallocs (xs ++ ys) ≡ deallocs xs + deallocs ys
deallocs-append [] ys = omega arith
deallocs-append (dealloc_channel n ∷ xs) ys = omega (arith, deallocs-append xs ys)
deallocs-append (_ ∷ xs) ys = deallocs-append xs ys

-- Each flag is set just when its packet is written, and a channel dies just when it is deallocated.
abbrev pub Counts : Channel → Effect → Type 0
Counts c (d, out) =
    (bit c.sent_close + closes out ≡ bit d.sent_close)
    × (bit c.sent_eof + eofs out ≡ bit d.sent_eof)
    × (bit (not c.alive) + deallocs out ≡ bit (not d.alive))

-- A call: CLOSE is received by no call, and sent at most once, which ends the channel if the other
-- side's has come.
abbrev Balanced : Channel → Effect → Type 0
Balanced c (d, out) =
    Counts c (d, out)
    × (d.received_close ≡ c.received_close)
    × (d.alive
        ≡ (if not c.sent_close && d.sent_close then c.alive && not c.received_close else c.alive))

Counts->>= :
    (c : Channel) (e : Effect) (f : Channel → Effect)
    → Counts c e
    → Counts e.0 (f e.0)
    → Counts c (e >>= f)
Counts->>= c (d, out) f (h0, h1, h2) (k0, k1, k2) = (
  omega (arith, closes-append out (f d).1),
  omega (arith, eofs-append out (f d).1),
  omega (arith, deallocs-append out (f d).1),
)

Balanced->>= :
    (c : Channel) (e : Effect) (f : Channel → Effect)
    → Balanced c e
    → Balanced e.0 (f e.0)
    → Balanced c (e >>= f)
Balanced->>= c (d, out) f (h, r, a) (k, r', a') =
    (Counts->>= c (d, out) f h k, r' ∙ r, ground arith)

stay-Balanced : (c : Channel) → Balanced c (c, [])
stay-Balanced c = ((omega arith, omega arith, omega arith), refl, ground arith)

channel_close-Balanced : (c : Channel) → Balanced c (channel_close c)
unfolding channel_close channel_finished
channel_close-Balanced c = ((ground arith, ground arith, ground arith), ground arith, ground arith)

channel_maybe_close-Balanced : (c : Channel) → Balanced c (channel_maybe_close c)
unfolding channel_maybe_close
channel_maybe_close-Balanced c =
    elim (Bool-cases (
      not c.sent_close
      && (c.sent_eof && (c.no_wait_for_eof || (c.received_eof && c.sinks == 0))))) [
        | inl h ↦ rw h (channel_close-Balanced c)
        | inr h ↦ rw h (stay-Balanced c)
      ]

channel_eof-Balanced : (c : Channel) → Balanced c (channel_eof c)
unfolding channel_eof
channel_eof-Balanced c = elim (Bool-cases (c.sent_eof || (c.sent_close || c.received_close))) [
  | inl h ↦ rw h (stay-Balanced c)
  | inr h ↦ rw h (
      Balanced->>= c (record c { sent_eof = true }, channel_eof_packet c.remote_channel_number ∷ [])
        channel_maybe_close ((omega arith, ground arith, omega arith), refl, ground arith)
        (channel_maybe_close-Balanced (record c { sent_eof = true })))
]

perform-Balanced : (a : Call) (c : Channel) → Balanced c (perform a c)
unfolding perform channel_adjust_rec_window send_window_adjust channel_send_request
perform-Balanced close c = channel_close-Balanced c
perform-Balanced eof c = channel_eof-Balanced c
perform-Balanced (adjust n) c =
    ((ground arith, ground arith, ground arith), ground arith, ground arith)
perform-Balanced (request want_reply) c =
    ((ground arith, ground arith, ground arith), ground arith, ground arith)
perform-Balanced (set_sinks n) c = channel_maybe_close-Balanced (record c { sinks = n })

perform_all-Balanced : (l : List Call) (c : Channel) → Balanced c (perform_all l c)
unfolding perform_all
perform_all-Balanced [] c = stay-Balanced c
perform_all-Balanced (a ∷ l) c =
    Balanced->>= c (perform a c) (perform_all l) (perform-Balanced a c)
      (perform_all-Balanced l (perform a c).0)

-- A channel is dead just when both CLOSE messages have been exchanged.
abbrev pub IsValid : Channel → Type 0
IsValid c = c.alive ≡ not (c.sent_close && c.received_close)

Balanced-IsValid : (c : Channel) (e : Effect) → IsValid c → Balanced c e → IsValid e.0
Balanced-IsValid c (d, out) v ((sent, _, _), r, a) = ground arith

abbrev answer : Channel → Effect
answer d = if d.sent_close then channel_finished d else channel_close d

answer-Counts : (d : Channel) → Counts d (answer d)
unfolding channel_finished channel_close
answer-Counts d = (ground arith, ground arith, ground arith)

answer-IsValid : (d : Channel) → d.received_close ≡ true → IsValid (answer d).0
unfolding channel_finished channel_close
answer-IsValid d h = ground arith

module _ (client : ChannelEvent → Channel → List Call) where
  raise-Balanced : (e : ChannelEvent) (c : Channel) → Balanced c (raise client e c)
  unfolding raise
  raise-Balanced e c =
      Balanced->>= c (c, channel_event e ∷ []) (perform_all (client e c))
        ((omega arith, omega arith, omega arith), refl, ground arith)
        (perform_all-Balanced (client e c) c)

  handle_channel_eof-Balanced : (c : Channel) → Balanced c (handle_channel_eof client c)
  unfolding handle_channel_eof
  handle_channel_eof-Balanced c = elim (Bool-cases (c.received_eof || c.received_close)) [
    | inl h ↦ rw h ((omega arith, omega arith, omega arith), refl, ground arith)
    | inr h ↦ rw h (
        Balanced->>= c (raise client event_eof (record c { received_eof = true }))
          channel_maybe_close (raise-Balanced event_eof (record c { received_eof = true }))
          (channel_maybe_close-Balanced
            (raise client event_eof (record c { received_eof = true })).0))
  ]

  handle_channel_close-Counts :
      (c : Channel)
      → IsValid c
      → Counts c (handle_channel_close client c) × IsValid (handle_channel_close client c).0
  unfolding handle_channel_close
  handle_channel_close-Counts c v = elim (Bool-cases c.received_close) [
    | inl k ↦ rw k ((omega arith, omega arith, omega arith), ground arith)
    | inr k ↦
        let d : Effect = raise client event_close (record c { received_close = true }) in
        let (counts, received, _) =
          raise-Balanced event_close (record c { received_close = true }) in
        rw k (Counts->>= c d answer counts (answer-Counts d.0), answer-IsValid d.0 received)
  ]

  reply-Balanced :
      (e : ChannelEvent) (c : Channel)
      → Balanced c (
          if c.pending_requests == 0
          then (c, [])
          else raise client e (record c { pending_requests = c.pending_requests - 1 }))
  reply-Balanced e c = elim (Bool-cases (c.pending_requests == 0)) [
    | inl h ↦ rw h (stay-Balanced c)
    | inr h ↦ rw h (raise-Balanced e (record c { pending_requests = c.pending_requests - 1 }))
  ]

  handle_adjust_window-Balanced : (n : ℕ) (c : Channel) → Balanced c (handle_adjust_window n c)
  unfolding handle_adjust_window
  handle_adjust_window-Balanced n c =
      ((ground arith, ground arith, ground arith), ground arith, ground arith)

  receive-Balanced :
      (type : ℕ) (bytes : List ℕ) (c : Channel) → Balanced c (receive_data_common c type bytes)
  unfolding receive_data_common
  receive-Balanced type bytes c =
      ((ground arith, ground arith, ground arith), ground arith, ground arith)

  extended-Balanced :
      (type : ℕ) (bytes : List ℕ) (c : Channel)
      → Balanced c (handle_channel_extended_data type bytes c)
  unfolding handle_channel_extended_data
  extended-Balanced type bytes c = elim (Bool-cases (type == 1)) [
    | inl h ↦ rw h (receive-Balanced 1 bytes c)
    | inr h ↦ rw h (stay-Balanced c)
  ]

  abbrev Keeps : Channel → Effect → Type 0
  Keeps c e = Counts c e × IsValid e.0

  balanced : (c : Channel) (e : Effect) → IsValid c → Balanced c e → Keeps c e
  balanced c e v h = (h.0, Balanced-IsValid c e v h)

  when_alive-Keeps :
      (f : Channel → Effect) (c : Channel) → IsValid c → Keeps c (f c) → Keeps c (when_alive f c)
  when_alive-Keeps f c v h = choose c.alive
    where
      choose : (b : Bool) → Keeps c (if b then f c else (c, []))
      choose true = h
      choose false = balanced c (c, []) v (stay-Balanced c)

  move-Keeps : (m : Move) (c : Channel) → IsValid c → Keeps c (move client m c)
  unfolding move handle_channel_data handle_channel_success handle_channel_failure
  move-Keeps (call a) c v = balanced c (perform a c) v (perform-Balanced a c)
  move-Keeps (window_adjust n) c v =
      when_alive-Keeps (handle_adjust_window n) c v
        (balanced c (handle_adjust_window n c) v (handle_adjust_window-Balanced n c))
  move-Keeps (data_message bytes) c v =
      when_alive-Keeps (handle_channel_data bytes) c v
        (balanced c (handle_channel_data bytes c) v (receive-Balanced 0 bytes c))
  move-Keeps (extended_data_message type bytes) c v =
      when_alive-Keeps (handle_channel_extended_data type bytes) c v
        (balanced c (handle_channel_extended_data type bytes c) v (extended-Balanced type bytes c))
  move-Keeps eof_message c v =
      when_alive-Keeps (handle_channel_eof client) c v
        (balanced c (handle_channel_eof client c) v (handle_channel_eof-Balanced c))
  move-Keeps close_message c v =
      when_alive-Keeps (handle_channel_close client) c v (handle_channel_close-Counts c v)
  move-Keeps success_message c v =
      when_alive-Keeps (handle_channel_success client) c v
        (balanced c (handle_channel_success client c) v (reply-Balanced event_success c))
  move-Keeps failure_message c v =
      when_alive-Keeps (handle_channel_failure client) c v
        (balanced c (handle_channel_failure client c) v (reply-Balanced event_failure c))

  -- After any messages and calls, whatever the event handler calls: CLOSE and EOF have been written
  -- at most once each, just when their flags say so, and the channel number has been deallocated
  -- just when CLOSE has been both sent and received, and then once.
  pub move_all-Counts :
      (l : List (Move)) (c : Channel)
      → IsValid c
      → Counts c (move_all client l c) × IsValid (move_all client l c).0
  unfolding move_all
  move_all-Counts [] c v = balanced c (c, []) v (stay-Balanced c)
  move_all-Counts (m ∷ l) c v =
      let (counts, valid) = move-Keeps m c v in
      let (counts', valid') = move_all-Counts l (move client m c).0 valid in
      (Counts->>= c (move client m c) (move_all client l) counts counts', valid')
