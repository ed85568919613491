-- ===== src/Pump/Upstream.antt =====
-- The way from the TCP connection of the client to that of the server.
use mathlib.Core.List.{flatten}
use whet.FlowControl.{max_buffer_size}
use whet.Base.{
  suc, bytes_eq, ℕ, ◌≡◌, ◌≤◌, refl, sym, ap, subst, ◌∙◌, arith, true, List, [], ◌∷◌, ◌++◌, none,
  Bytes, codes, length, All, append_assoc, append-nil,
}
use whet.Transfer.{Outcome, Sending, done, failed, blocked, send_raw, send_data_tcp}
use whet.Transfer.Delivery.{Delivers, send_data_tcp-Delivers}
use whet.Transfer.Progress.{IsLive, Returns, send_data_tcp-Returns}
use whet.Stream.{ReadOutcome, broken, receive_raw}
use whet.Stream.Reading.{IsMessage}
use whet.Pump.{
  TcpRead, Pumped, closed, after_send, client_pump, Arrived, ended, server_receive, after_write,
}
use whet.Pump.Messages.{send_raw-Sent}
use whet.Pump.Tunnel.{
  IsSendable, reads, content, arrival, arrival_fits, is_over_full, Closes, Closes-Sent,
}

-- The messages as the server reads them from the `i`-th on, each with its writes; then the channel is
-- closed.
abbrev pub landings : (ℕ → List Outcome) → ℕ → List Bytes → List (ReadOutcome × List Outcome)
landings ws i [] = (broken [] (codes "EOF"), []) ∷ []
landings ws i (m ∷ ms) = (arrival m, ws i) ∷ landings ws (suc i) ms

-- A write that has returned has written all.
wrote :
    (m : Bytes) (s : Sending)
    → Returns s
    → Delivers m s
    → (later : Bytes → Arrived) (out : Bytes) → after_write later out s ≡ later (out ++ m)
unfolding after_write
wrote m (done ms) r d later out = ap (λ (x : Bytes). later (out ++ x)) d
wrote m (failed ms) r d later out = absurd r
wrote m (blocked ms) r d later out = absurd r

server_receive-landings :
    (ws : ℕ → List Outcome) (i : ℕ) (ms : List Bytes) (out : Bytes)
    → All IsMessage ms
    → ((k : ℕ) → All IsLive (ws k))
    → ((k : ℕ) → max_buffer_size ≤ length (ws k))
    → server_receive true (landings ws i ms) out ≡ ended (out ++ flatten ms)
unfolding server_receive flatten receive_raw bytes_eq
server_receive-landings ws i [] out h live enough = rw (append-nil out) refl
server_receive-landings ws i (m ∷ ms) out (hm, h) live enough =
    let fits : length m ≤ length (ws i) = omega (arith, hm.1, enough i) in
    rw (arrival_fits m hm, is_over_full m hm)
      (wrote m (send_data_tcp m (ws i)) (send_data_tcp-Returns m (ws i) (live i) fits)
          (send_data_tcp-Delivers m (ws i)) (server_receive true (landings ws (suc i) ms)) out
        ∙ (server_receive-landings ws (suc i) ms (out ++ m) h live enough
            ∙ ap ended (append_assoc out m (flatten ms))))

client_sends_on :
    (b : ℕ) (bytes : Bytes) (outs : List Outcome) (rest : List (TcpRead × List Outcome))
    (wire parts : List Bytes)
    → send_raw true (b ∷ bytes) outs ≡ done parts
    → client_pump true ((record { bytes = b ∷ bytes; error = none }, outs) ∷ rest) wire
      ≡ client_pump true rest (wire ++ parts)
unfolding client_pump after_send
client_sends_on b bytes outs rest wire parts e = ap (after_send (client_pump true rest) wire) e

client_pump-Closes :
    (chunks : List (Bytes × List Outcome)) (last : List Outcome) (wire : List Bytes)
    → All IsSendable chunks
    → Closes [] (content chunks) wire (client_pump true (reads chunks last) wire)
unfolding flatten client_pump
client_pump-Closes [] last wire s = record {
  parts = [];
  closes = rw (append-nil wire);
  whole = refl;
  fit = tt;
}
client_pump-Closes (([], outs) ∷ chunks) last wire s = absurd (omega (arith, s.0.0))
client_pump-Closes ((b ∷ bytes, outs) ∷ chunks) last wire s =
    let first = send_raw-Sent true b bytes outs s.0.1 s.0.2 in
    subst (λ (p : Pumped). Closes [] (content ((b ∷ bytes, outs) ∷ chunks)) wire p)
      (sym (client_sends_on b bytes outs (reads chunks last) wire first.parts first.returns))
      (Closes-Sent [] wire (b ∷ bytes) (content chunks) _ _ first
        (client_pump-Closes chunks last (wire ++ first.parts) s.1))

-- The other way: whatever the client reads from its TCP connection until that is closed, in whatever
-- pieces, the server writes to its own, however its writes are cut short, if each takes a byte and
-- there are enough for a message; both loops end, the server's when the channel is closed.
pub upstream :
    (chunks : List (Bytes × List Outcome)) (last : List Outcome) (ws : ℕ → List Outcome)
    → All IsSendable chunks
    → ((k : ℕ) → All IsLive (ws k))
    → ((k : ℕ) → max_buffer_size ≤ length (ws k))
    → (ms : List Bytes) × (client_pump true (reads chunks last) [] ≡ closed true ms)
      × (server_receive true (landings ws 0 ms) [] ≡ ended (content chunks))
upstream chunks last ws s live enough =
    let c = client_pump-Closes chunks last [] s in
    (
      c.parts,
      c.closes ∙ ap (closed true) (append-nil c.parts),
      server_receive-landings ws 0 c.parts [] c.fit live enough ∙ ap ended c.whole,
    )
