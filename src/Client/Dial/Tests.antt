-- ===== src/Client/Dial/Tests.antt =====
-- A dial at concrete values, with the test server at the other end.
use whet.Client.Dial.Refused.{token_refused}
use whet.Client.{dial_url, handle_url}
use whet.Client.Dial.Waiting.{
  Process, ProcessRun, idle_process, answers, attaches, answered, runs, channel_dial, asking,
  enter_map, update, store_dial, here, next, moves, stores, enters,
}
use whet.Client.Dial.Waiting.Blocking.{waiting_blocks, IsStill}
use whet.Client.Dial.Lifetime.{deliver, dial_lifetime}
use whet.Stream.Made.{dial_webrtc_conn, new_webrtc_conn}
use whet.Stream.Close.{Client, Closed, close}
use whet.Server.State.{World}
use whet.Http.{Response}
use whet.Handshake.{ready_message}
use whet.Base.{
  Bytes, codes, ◌∷◌, [], none, some, true, false, ◌++◌, bytes_eq, if◌then◌else◌, refl, arith, ◌≡◌,
  ℕ, ==_iff,
}
use whet.Base.Assoc.{lookup}
use whet.Connection.{Connection}
use whet.Transfer.{accepts}
use whet.Stream.{received}
use whet.Client.Dial.{
  Peers, Web, Url, Objects, Opening, Offer, negotiate, dial_client, prepare, ask, post_of,
  fails_with, bad_status, handle_client, drops,
}
use whet.Client.Dial.Ends.{Fits, dial_ends}
use whet.Client.Dial.Meeting.{request_of, reply_of, served}
use whet.Server.Handler.{whet_handler, origin_proto}
use whet.Server.Select.{whet_path}
use whet.Server.Samples.{offer, api, ssh, start, uuid}

abbrev peers : Peers
peers = record {
  new_peer = λ detached. some 1;
  create_channel = λ peer. some 2;
  create_offer = λ peer. some (codes "o");
  set_local = λ peer offer. true;
  local_sdp = λ peer. codes "offer";
  set_remote = λ peer answer. true;
}

abbrev url : Bytes
url = codes "http://h/whet/ssh"

-- A URL parser for the URLs of this test, whose host is "h".
abbrev path_of : Bytes → Url
path_of s = record { text = s; path = whet_path ++ codes "f47ac10b" }

abbrev web : Web
web = record {
  builds = λ s. true;
  send = λ p. some (
      reply_of
        (whet_handler api (λ s. some s) uuid
          (request_of (codes "HTTP/1.1") (codes "h") (whet_path ++ codes "ssh") p) start).0);
  parse = λ s. some (path_of s);
  resolve = λ base ref. ref.text;
}

abbrev made : Offer
made = record { peer = 1; channel = 2; sdp = codes "offer" }

abbrev after : Response × World
after =
    served api (λ s. some s) uuid (codes "HTTP/1.1") (codes "h") url (codes "ssh") start
      (codes "offer")

-- A server that gives every POST the same answer.
abbrev answering : Web
answering = record web {
  send = λ p. some (record { status = 201; location = codes "/whet/7"; body = some (codes "sdp") });
  parse = λ s. some (record { text = s; path = s });
}

abbrev opens : Opening
opens = record { raw = some 9; first = accepts 17; rest = []; message = received ready_message }

abbrev objects : Objects
objects = record { heap = []; open_connections = [] }

dial_ends_example :
    let (end, objects') =
      dial_client peers answering opens (codes "h") (codes "whet.ssh") [] true objects in
    (c : Connection) × (objects'.heap ≡ c ∷ [])
    × ((id : Bytes)
        → lookup id objects'.open_connections
          ≡ (if bytes_eq (codes "7") id then some 0 else lookup id objects.open_connections))
    × Fits true end c
unfolding negotiate prepare ask whet.Client.is_success whet.Client.dial_url
    whet.Client.connection_id bytes_eq whet.Strings.last_index whet.Strings.replace_all
    whet.Strings.has_prefix
dial_ends_example =
    dial_ends peers answering opens (codes "h") (codes "whet.ssh") [] true objects
      (record {
        offer = made;
        answered = record { id = codes "7"; resource_url = codes "/whet/7"; answer = codes "sdp" };
      })
      refl

abbrev caller : Client
caller = record { builds = λ s. true; succeeds = λ s. true }

abbrev dialled_object : Connection
dialled_object = record {
  peer_connection = 1;
  data_channel = some 2;
  conn = none;
  resource_url = codes "/whet/7";
  client_ready = true;
  detached = true;
  raw_detached = some 9;
  send_more = false;
  bearer_token = codes "t";
  closed = false;
}

abbrev lasting : Connection
lasting = record dialled_object {
  resource_url = codes "http://h/whet/f47ac10b";
  bearer_token = codes "secret";
}

dial_lifetime_example :
    (r : Closed) × (close caller (λ k. 0) (new_webrtc_conn lasting).conn ≡ some r)
    × ((j : Bytes)
        → lookup j
            (deliver web.parse
              (whet_handler api (λ s. some s) (codes "f"))
              offer
              r.effects
              after.1).open_connections
          ≡ lookup j start.open_connections)
unfolding negotiate prepare ask whet.Client.is_success whet.Client.dial_url
    whet.Client.connection_id bytes_eq whet.Strings.last_index whet.Strings.replace_all
    whet.Strings.has_prefix dial_webrtc_conn dial_client whet.Handshake.handle_detached_handshake
    whet.Handshake.client_handshake whet.Handshake.wait_for_peer_ready
    whet.Handshake.send_ready_signal whet.Transfer.send_raw lookup origin_proto whet_handler
    whet.Server.Handler.post whet.Server.Select.authorize whet.Server.Select.select_target
    whet.Strings.split whet.Strings.trim_prefix whet.Server.Handler.open_peer
    whet.Server.Handler.exchange whet.Server.Handler.answered whet.Server.Handler.cors
dial_lifetime_example =
    dial_lifetime api (λ s. some s) uuid (codes "HTTP/1.1") (codes "h") (codes "h")
      (codes "whet.ssh") (codes "ssh") start peers web opens objects ssh made (path_of url)
      (path_of (codes "http://h/whet/f47ac10b")) (path_of (codes "http://h/whet/f47ac10b")) []
      (codes "f") offer (new_webrtc_conn lasting) caller (λ k. 0) after.1 (omega arith) refl
      (record {
        peer = 5;
        answer = codes "answer";
        makes = refl;
        takes = refl;
        creates = refl;
        sets = refl;
      })
      refl refl refl refl refl refl (omega arith) refl refl refl refl refl refl refl refl refl

-- A dial gets its answer, and sets `c.dataChannel` and its other fields.
abbrev gets_answer : ℕ → Process → Process
gets_answer i p = record p { dials = update p.dials i (record (p.dials i) { stage = answered }) }

abbrev sets_channel : ℕ → Process → Process
sets_channel i p = record p { dials = update p.dials i (channel_dial (p.dials i)) }

abbrev sets_fields : ℕ → Process → Process
sets_fields i p = record p { dials = update p.dials i (store_dial (p.dials i)) }

abbrev comes : ℕ → Process → Process
comes i p = sets_fields i (sets_channel i (gets_answer i p))

comes_reached :
    (p q : Process) (i : ℕ)
    → ProcessRun p q
    → q.crashed ≡ false
    → (q.dials i).stage ≡ asking
    → ProcessRun p (comes i q)
unfolding channel_dial store_dial
comes_reached p q i r c e =
    next
      (next (next r (runs c (moves i (answers e))))
        (runs c (moves i (attaches (ground (arith, ==_iff i i))))))
      (runs c (moves i (stores (ground (arith, ==_iff i i)))))

-- The first dial waits, and then a second one comes to the lock.
abbrev first_waits : Process
first_waits = enter_map 0 (comes 0 idle_process)

first_waits_reached : ProcessRun idle_process first_waits
unfolding channel_dial store_dial
first_waits_reached =
    next (comes_reached idle_process idle_process 0 here refl refl) (runs refl (enters 0 refl refl))

abbrev second_ready : Process
second_ready = comes 1 first_waits

second_ready_reached : ProcessRun first_waits second_ready
unfolding enter_map channel_dial store_dial
second_ready_reached = comes_reached first_waits first_waits 1 here refl refl

waiting_blocks_example : IsStill 0 first_waits second_ready
unfolding enter_map channel_dial store_dial
waiting_blocks_example =
    waiting_blocks first_waits first_waits_reached 0 second_ready second_ready_reached refl refl

token_refused_example :
    let posted = λ (url : Bytes).
      whet_handler api
        (λ s. some s)
        uuid
        (request_of
          (codes "HTTP/1.1")
          (codes "h")
          (whet_path ++ codes "ssh")
          (post_of url (codes "guess") (codes "offer")))
        start in
    (dial_client peers web opens (codes "h") (codes "whet.ssh") (codes "guess") true objects
      ≡ (fails_with (bad_status 401), objects))
    × (handle_client peers web 4 (codes "h") (codes "whet.ssh") (codes "guess") true objects
        ≡ (drops 4 (some 1), objects))
    × ((posted (dial_url (codes "h") (codes "whet.ssh"))).1 ≡ start)
    × ((posted (handle_url (codes "h") (codes "whet.ssh"))).1 ≡ start)
unfolding bytes_eq prepare
token_refused_example =
    token_refused api (λ s. some s) uuid (codes "HTTP/1.1") (codes "h") (whet_path ++ codes "ssh")
      start peers web (codes "guess") made (λ e. cc) (λ e. cc) opens 4 (codes "h")
      (codes "whet.ssh") true objects refl refl refl refl refl
