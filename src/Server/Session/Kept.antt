-- ===== src/Server/Session/Kept.antt =====
-- What holds in every state that the goroutines of a data channel reach.
use whet.Base.{◌≡◌, refl, Bool, true, false, arith}
use whet.Server.Session.{
  Receiver, signalling, shaking, failing, waiting, receiving, finished, Dialler, refusing, given_up,
  stored, done, Sender, absent, sending, returned, Session, opened, succeed, close_conn, fail,
  fail_again, proceed, stop_receiving, store_conn, connect, give_up, delete_session, attach, signal,
  refuse_client, end_sender, Move, signals, fails_first, succeeds, fails, fails_again, proceeds,
  stops, attaches, dials, connects, refuses, gives_up, sends, returns, deletes, Step, moves, Reach,
  here, next,
}

-- Whether the handshake has succeeded, and whether the receiver is past `connWg.Wait()`.
abbrev pub has_succeeded : Receiver → Bool
has_succeeded (waiting b) = b
has_succeeded (receiving b) = b
has_succeeded (finished b) = b
has_succeeded signalling = false
has_succeeded shaking = false
has_succeeded failing = false

abbrev pub is_past_wait : Receiver → Bool
is_past_wait (receiving b) = true
is_past_wait (finished b) = true
is_past_wait _ = false

abbrev pub is_finished : Receiver → Bool
is_finished (finished b) = true
is_finished _ = false

abbrev pub has_stored : Dialler → Bool
has_stored stored = true
has_stored done = true
has_stored _ = false

abbrev pub has_connected : Dialler → Bool
has_connected done = true
has_connected _ = false

abbrev pub has_refused : Dialler → Bool
has_refused refusing = true
has_refused given_up = true
has_refused _ = false

-- The sender has passed `wg.Wait()`.
abbrev pub has_sent : Sender → Bool
has_sent sending = true
has_sent returned = true
has_sent _ = false

-- `createServerSideConnection` has been started.
abbrev pub has_begun : Sender → Bool
has_begun absent = false
has_begun _ = true

pub record IsKept (s : Session) : Type 0 where
  pub ready : s.client_ready ≡ has_succeeded s.receiver
  pub group : s.shaken ≡ s.client_ready
  pub socket : s.has_conn ≡ has_stored s.dialler
  pub joined : s.connected ≡ has_connected s.dialler
  pub past : is_past_wait s.receiver ≡ true → s.connected ≡ true
  pub opened_socket : s.socket_open ≡ true → s.has_conn ≡ true
  pub released : is_finished s.receiver ≡ true → s.socket_open ≡ false
  pub sent : has_sent s.sender ≡ true → s.shaken ≡ true
  pub begun : has_begun s.sender ≡ true → s.connected ≡ true
  pub why_closed : s.closed ≡ true → s.client_ready ≡ true → s.registered ≡ false
  pub unclosed : s.receiver ≡ shaking → s.closed ≡ true → s.registered ≡ false
  pub unclosed_first : s.receiver ≡ signalling → s.closed ≡ true → s.registered ≡ false
  pub crash : s.crashed ≡ true → s.receiver ≡ signalling
  pub told : s.error_sent ≡ true → has_refused s.dialler ≡ true

Move-IsKept : {s t : Session} → Move s t → s.crashed ≡ false → IsKept s → IsKept t
unfolding succeed close_conn fail fail_again proceed stop_receiving store_conn connect give_up
    delete_session attach signal refuse_client end_sender
Move-IsKept (signals e) c k = ground (arith, e)
Move-IsKept (fails_first e) c k = ground arith
Move-IsKept (succeeds e) c k = ground (arith, k.ready, k.group)
Move-IsKept (fails e) c k = ground arith
Move-IsKept (fails_again e) c k = ground arith
Move-IsKept (proceeds b e d) c k = ground arith
Move-IsKept (stops b e) c k = ground arith
Move-IsKept (attaches e) c k = ground arith
Move-IsKept (dials e) c k = ground arith
Move-IsKept (connects e) c k = ground arith
Move-IsKept (refuses e) c k = ground arith
Move-IsKept (gives_up e) c k = ground arith
Move-IsKept (sends e d) c k = ground arith
Move-IsKept (returns b e) c k = ground arith
Move-IsKept (deletes e) c k = ground arith

Step-IsKept : {s t : Session} → Step s t → IsKept s → IsKept t
Step-IsKept (moves c m) k = Move-IsKept m c k

Reach-IsKept : {s t : Session} → IsKept s → Reach s t → IsKept t
Reach-IsKept k here = k
Reach-IsKept k (next r st) = Step-IsKept st (Reach-IsKept k r)

pub opened-IsKept : (s : Session) → Reach opened s → IsKept s
opened-IsKept s r =
    Reach-IsKept
      (record {
        ready = refl;
        group = refl;
        socket = refl;
        joined = refl;
        past = λ e. cc;
        opened_socket = λ e. cc;
        released = λ e. refl;
        sent = λ e. cc;
        begun = λ e. cc;
        why_closed = λ e f. cc;
        unclosed = λ e f. cc;
        unclosed_first = λ e f. cc;
        crash = λ e. cc;
        told = λ e. cc;
      })
      r
