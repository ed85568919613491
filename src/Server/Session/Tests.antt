-- ===== src/Server/Session/Tests.antt =====
-- Runs of the goroutines of a data channel.
use whet.Server.Session.Outcomes.{sent_after_handshake, delete_after_handshake}
use whet.Server.Session.{
  delete_session, Session, moves, attach, attaches, signal, signals, succeed, receiving, opened,
  Reach, store_conn, next, done, connect, proceed, sending, here, dials, succeeds, connects,
  proceeds, sends,
}
use whet.Server.Session.Settled.{session_settles, run_length, Continues, IsSettled}
use whet.Base.{◌≤◌, ◌⊎◌, true, ◌≡◌, false, refl}

-- The target is dialled, the handshake succeeds, and both loops run.
abbrev running : Session
running = record {
  receiver = receiving true;
  dialler = done;
  sender = sending;
  shaken = true;
  connected = true;
  has_conn = true;
  socket_open = true;
  has_channel = true;
  closed = false;
  client_ready = true;
  registered = true;
  error_sent = false;
  peer_open = true;
  crashed = false;
}

-- The channel is set, the signal is sent, and the target is not dialled yet.
abbrev signalled : Session
unfolding attach signal
signalled = signal (attach opened)

running_reached : Reach opened running
unfolding attach signal succeed store_conn connect proceed
running_reached =
    next
      (next
        (next
          (next
            (next (next (next here (moves refl (attaches refl))) (moves refl (signals refl)))
              (moves refl (dials refl)))
            (moves refl (succeeds refl)))
          (moves refl (connects refl)))
        (moves refl (proceeds true refl refl)))
      (moves refl (sends refl refl))

sent_after_handshake_example :
    (running.client_ready ≡ true) × (running.has_conn ≡ true) × (running.error_sent ≡ false)
sent_after_handshake_example = sent_after_handshake running running_reached refl

delete_after_handshake_example : (delete_session running).socket_open ≡ false
delete_after_handshake_example =
    delete_after_handshake running running_reached refl refl refl (delete_session running) here

session_settles_example :
    (run_length running_reached ≤ 11) × (Continues running ⊎ IsSettled running)
session_settles_example = session_settles running running_reached
