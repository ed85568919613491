-- ===== src/Handshake/Outcomes.antt =====
-- How a handshake ends, on every branch.
use whet.Base.{
  Bool, ◌≡◌, List, inl, inr, Bytes, All, length, ◌<◌, if◌then◌else◌, bytes_eq, true, none, ◌⊎◌,
  refl, false, Bool-cases, ◌∙◌, bytes_eq_iff, arith,
}
use whet.Transfer.Progress.{IsLive, Returns, send_raw-Returns}
use whet.Handshake.{
  ready_message, is_ready_message, Shake, succeeds, refuses, hangs, wait_for_peer_ready, sent,
  send_ready_signal, then_shake, client_handshake, server_handshake, Shaken,
  handle_detached_handshake, after_handshake, Sending, Connection, Outcome, ReadOutcome, received,
  send_raw, done, failed, blocked,
}

-- The object after a handshake: a success marks it ready and nothing else; a failure marks it closed
-- and closes its socket.
abbrev pub Reflects : Bool → Connection → Shaken → Type 0
Reflects has_wg c s =
    ((s.result ≡ succeeds)
      × (s.connection ≡ record c { client_ready = true })
      × (s.closed_socket ≡ none)
      × (s.signalled ≡ has_wg))
    ⊎ (((s.result ≡ refuses)
          × (s.connection ≡ record c { closed = true })
          × (s.closed_socket ≡ c.conn)
          × (s.signalled ≡ false))
        ⊎ ((s.result ≡ hangs)
            × (s.connection ≡ c)
            × (s.closed_socket ≡ none)
            × (s.signalled ≡ false)))

after_handshake-Reflects :
    (has_wg : Bool) (c : Connection) (s : Shake) → Reflects has_wg c (after_handshake has_wg c s)
unfolding after_handshake
after_handshake-Reflects has_wg c succeeds = inl (refl, refl, refl, refl)
after_handshake-Reflects has_wg c refuses = inr (inl (refl, refl, refl, refl))
after_handshake-Reflects has_wg c hangs = inr (inr (refl, refl, refl, refl))

-- A detached handshake reports its result in the object and to the wait group on every branch.
pub handshake-Reflects :
    (is_server has_wg : Bool) (c : Connection) (outs : List Outcome) (o : ReadOutcome)
    → Reflects has_wg c (handle_detached_handshake is_server has_wg c outs o)
unfolding handle_detached_handshake
handshake-Reflects is_server has_wg c outs o = after_handshake-Reflects has_wg c _

sent-succeeds : (s : Sending) → Returns s → sent s ≡ succeeds
unfolding sent
sent-succeeds (done ms) h = refl
sent-succeeds (failed ms) h = absurd h
sent-succeeds (blocked ms) h = absurd h

after_handshake-result :
    (has_wg : Bool) (c : Connection) (s : Shake) → (after_handshake has_wg c s).result ≡ s
unfolding after_handshake
after_handshake-result has_wg c succeeds = refl
after_handshake-result has_wg c refuses = refl
after_handshake-result has_wg c hangs = refl

is_ready_message_lem : (m : Bytes) → is_ready_message m ≡ bytes_eq m ready_message
is_ready_message_lem m = elim (Bool-cases (bytes_eq m ready_message)) [
  | inl e ↦ let same = (bytes_eq_iff m ready_message).0 e in rw (e, same)
  | inr e ↦ rw e (ground arith)
]

wait_for_peer_ready-received :
    (m : Bytes)
    → wait_for_peer_ready (received m) ≡ (if bytes_eq m ready_message then succeeds else refuses)
unfolding wait_for_peer_ready
wait_for_peer_ready-received m = rw (is_ready_message_lem m)

then_succeeds :
    (b : Bool)
    → then_shake (if b then succeeds else refuses) succeeds ≡ (if b then succeeds else refuses)
then_succeeds true = refl
then_succeeds false = refl

-- Over a live channel a handshake of either side succeeds exactly if the peer's message is the ready
-- message, and otherwise fails.
pub handshake_decided :
    (is_server has_wg : Bool) (c : Connection) (outs : List Outcome) (m : Bytes)
    → All IsLive outs
    → length ready_message < length outs
    → (handle_detached_handshake is_server has_wg c outs (received m)).result
      ≡ (if bytes_eq m ready_message then succeeds else refuses)
unfolding handle_detached_handshake server_handshake client_handshake send_ready_signal
handshake_decided true has_wg c outs m live enough =
    let s =
      sent-succeeds (send_raw c.detached ready_message outs)
        (send_raw-Returns c.detached ready_message outs live enough) in
    after_handshake-result has_wg c _ ∙ rw (s, wait_for_peer_ready-received m)
handshake_decided false has_wg c outs m live enough =
    let s =
      sent-succeeds (send_raw c.detached ready_message outs)
        (send_raw-Returns c.detached ready_message outs live enough) in
    after_handshake-result has_wg c _
    ∙ rw (s, wait_for_peer_ready-received m) (then_succeeds (bytes_eq m ready_message))
