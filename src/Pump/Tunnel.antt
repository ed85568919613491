-- ===== src/Pump/Tunnel.antt =====
-- The way from the TCP connection of the server to that of the client.
use mathlib.Core.List.{flatten, append-nil}
use whet.Pump.Messages.{send_raw-Sent, Sent}
use whet.FlowControl.{max_buffer_size}
use whet.Transfer.Progress.{IsLive}
use whet.Stream.Reading.{IsMessage}
use whet.Pump.{
  client_receive, server_pump, Pumped, TcpRead, is_over, closed, tcp_eof, ended, after_send,
}
use whet.Stream.{receive_raw, ReadOutcome, received, broken}
use whet.Transfer.{send_raw, send_loop, Outcome, accepts, fails, done, Sending}
use whet.Base.{
  ℕ, Bytes, List, ◌≤◌, All, if◌then◌else◌, ◌≡◌, Bool, true, length, ◌∷◌, ltb, some, false, arith,
  ◌<◌, [], le→ltb, ◌++◌, none, codes, ◌∙◌, ap, append_assoc, sym, flatten-append, All-append, refl,
  subst,
}

-- A read that returned data, with the outcomes of its send: a live channel that takes it all.
abbrev pub IsSendable : Bytes × List Outcome → Type 0
IsSendable (bytes, outs) = (1 ≤ length bytes) × All IsLive outs × (length bytes < length outs)

-- The reads of a TCP connection that is closed in the end.
abbrev pub reads : List (Bytes × List Outcome) → List Outcome → List (TcpRead × List Outcome)
reads [] last = (record { bytes = []; error = some tcp_eof }, last) ∷ []
reads ((bytes, outs) ∷ chunks) last =
    (record { bytes = bytes; error = none }, outs) ∷ reads chunks last

-- All that was read.
abbrev pub content : List (Bytes × List Outcome) → Bytes
content [] = []
content ((bytes, outs) ∷ chunks) = bytes ++ content chunks

-- A message as the other side reads it: one that does not fit the buffer is an error.
abbrev pub arrival : Bytes → ReadOutcome
arrival m = if ltb max_buffer_size (length m) then broken [] (codes "short buffer") else received m

-- The messages as the client reads them, each written with success.
abbrev pub arrivals : List Bytes → List (ReadOutcome × Bool)
arrivals [] = []
arrivals (m ∷ ms) = (arrival m, true) ∷ arrivals ms

pub arrival_fits : (m : Bytes) → IsMessage m → arrival m ≡ received m
arrival_fits m h = rw (le→ltb max_buffer_size (length m) h.1)

pub is_over_full : (m : Bytes) → IsMessage m → is_over (receive_raw true (received m)) ≡ false
unfolding receive_raw
is_over_full m h = ground (arith, h.0)

client_receive-arrivals :
    (ms : List Bytes) (out : Bytes)
    → All IsMessage ms
    → client_receive true (arrivals (ms ++ [] ∷ [])) out ≡ ended (out ++ flatten ms)
unfolding client_receive flatten receive_raw
client_receive-arrivals [] out h = rw (append-nil out)
client_receive-arrivals (m ∷ ms) out (hm, h) =
    rw (arrival_fits m hm, is_over_full m hm)
      (client_receive-arrivals ms (out ++ m) h ∙ ap ended (append_assoc out m (flatten ms)))

-- What a pump has sent when it has closed the channel; `tail` is what it sends at the end.
pub record Closes (tail : List Bytes) (text : Bytes) (wire : List Bytes) (p : Pumped) : Type 0 where
  pub parts : List Bytes
  pub closes : p ≡ closed true (wire ++ (parts ++ tail))
  pub whole : flatten parts ≡ text
  pub fit : All IsMessage parts

-- A send, and then what follows it.
pub Closes-Sent :
    (tail wire : List Bytes) (bytes text : Bytes) (s : Sending) (p : Pumped)
    → (first : Sent bytes s) → Closes tail text (wire ++ first.parts) p
    → Closes tail (bytes ++ text) wire p
unfolding flatten
Closes-Sent tail wire bytes text s p first later = record {
  parts = first.parts ++ later.parts;
  closes =
      later.closes
      ∙ ap (closed true) (
          append_assoc wire first.parts (later.parts ++ tail)
          ∙ ap (◌++◌ wire) (sym (append_assoc first.parts later.parts tail)));
  whole = rw (flatten-append first.parts later.parts, first.whole, later.whole);
  fit = All-append IsMessage first.parts later.parts first.fit later.fit;
}

end_message :
    (last : List Outcome)
    → All IsLive last
    → 1 ≤ length last
    → send_raw true [] last ≡ done ([] ∷ [])
unfolding send_raw send_loop
end_message [] l h = absurd (omega arith)
end_message (fails ∷ outs) l h = absurd l.0
end_message (accepts n ∷ []) l h = refl
end_message (accepts n ∷ fails ∷ outs) l h = absurd l.1.0
end_message (accepts n ∷ accepts k ∷ outs) l h = refl

sends_on :
    (b : ℕ) (bytes : Bytes) (outs : List Outcome) (rest : List (TcpRead × List Outcome))
    (wire parts : List Bytes)
    → send_raw true (b ∷ bytes) outs ≡ done parts
    → server_pump true ((record { bytes = b ∷ bytes; error = none }, outs) ∷ rest) wire
      ≡ server_pump true rest (wire ++ parts)
unfolding server_pump after_send
sends_on b bytes outs rest wire parts e = ap (after_send (server_pump true rest) wire) e

server_pump-Closes :
    (chunks : List (Bytes × List Outcome)) (last : List Outcome) (wire : List Bytes)
    → All IsSendable chunks
    → All IsLive last
    → 1 ≤ length last
    → Closes ([] ∷ []) (content chunks) wire (server_pump true (reads chunks last) wire)
unfolding flatten server_pump
server_pump-Closes [] last wire s l h =
    rw (end_message last l h) (record { parts = []; closes = refl; whole = refl; fit = tt })
server_pump-Closes (([], outs) ∷ chunks) last wire s l h = absurd (omega (arith, s.0.0))
server_pump-Closes ((b ∷ bytes, outs) ∷ chunks) last wire s l h =
    let first = send_raw-Sent true b bytes outs s.0.1 s.0.2 in
    subst (λ (p : Pumped). Closes ([] ∷ []) (content ((b ∷ bytes, outs) ∷ chunks)) wire p)
      (sym (sends_on b bytes outs (reads chunks last) wire first.parts first.returns))
      (Closes-Sent ([] ∷ []) wire (b ∷ bytes) (content chunks) _ _ first
        (server_pump-Closes chunks last (wire ++ first.parts) s.1 l h))

-- End to end: whatever the server reads from its TCP connection until that is closed, in whatever
-- pieces, the client writes to its own, byte by byte and nothing else, and both loops end; the channel
-- and the client's connection are taken to be live.
pub tunnel :
    (chunks : List (Bytes × List Outcome)) (last : List Outcome)
    → All IsSendable chunks
    → All IsLive last
    → 1 ≤ length last
    → (ms : List Bytes) × (server_pump true (reads chunks last) [] ≡ closed true ms)
      × (client_receive true (arrivals ms) [] ≡ ended (content chunks))
tunnel chunks last s l h =
    let c = server_pump-Closes chunks last [] s l h in
    (c.parts ++ [] ∷ [], c.closes, client_receive-arrivals c.parts [] c.fit ∙ ap ended c.whole)
