-- ===== src/Pump/Inbound.antt =====
-- The way from the data channel to the TCP connection of the server.
use whet.Transfer.Delivery.{Delivers, send_data_tcp-Delivers}
use whet.Transfer.{done, failed, blocked, Sending, send_data_tcp, Outcome}
use mathlib.Core.List.{flatten}
use whet.Stream.{ReadOutcome, read_bytes, receive_raw}
use whet.Pump.{Arrived, ended, write_failed, still, server_receive, after_write, is_over}
use whet.Base.{
  take-append-drop, ℕ, List, Bytes, [], ◌∷◌, ◌++◌, ◌≡◌, append_assoc, ap, sym, ◌∙◌, take, drop,
  refl, subst, true, Bool-cases, inl, inr,
}

abbrev pub written : Arrived → Bytes
written (ended bytes) = bytes
written (write_failed bytes) = bytes
written (still bytes) = bytes

-- The bytes of the reads of the channel.
abbrev inbound : List (ReadOutcome × List Outcome) → Bytes
inbound [] = []
inbound ((o, outs) ∷ rest) = read_bytes true o ++ inbound rest

-- The first text is the beginning of the second.
abbrev pub Begins : Bytes → Bytes → Type 0
Begins part text = (more : Bytes) × (part ++ more ≡ text)

Begins-append :
    (out part text rest : Bytes) → Begins part text → Begins (out ++ part) (out ++ (text ++ rest))
Begins-append out part text rest (more, e) = (
  more ++ rest,
  append_assoc out part (more ++ rest)
      ∙ ap (◌++◌ out) (sym (append_assoc part more rest) ∙ ap (λ (x : Bytes). x ++ rest) e),
)

Begins-take : (n : ℕ) (text : Bytes) → Begins (take n text) text
Begins-take n text = (drop n text, take-append-drop n text)

Begins-after_write :
    (later : Bytes → Arrived) (out text rest : Bytes) (s : Sending)
    → Delivers text s
    → ((mid : Bytes) → Begins (written (later mid)) (mid ++ rest))
    → Begins (written (after_write later out s)) (out ++ (text ++ rest))
unfolding after_write
Begins-after_write later out text rest (done ms) d h =
    subst (λ (x : Bytes). Begins (written (later (out ++ flatten ms))) x)
      (append_assoc out (flatten ms) rest ∙ ap (λ (x : Bytes). out ++ (x ++ rest)) d)
      (h (out ++ flatten ms))
Begins-after_write later out text rest (failed ms) (n, le, e) h =
    rw e (Begins-append out (take n text) text rest (Begins-take n text))
Begins-after_write later out text rest (blocked ms) (n, le, e) h =
    rw e (Begins-append out (take n text) text rest (Begins-take n text))

-- Whatever the channel and the TCP connection do, what the server has written to the TCP connection is
-- the beginning of what it has received: nothing is lost in between, doubled or reordered.
pub server_receive-Begins :
    (rs : List (ReadOutcome × List Outcome)) (out : Bytes)
    → Begins (written (server_receive true rs out)) (out ++ inbound rs)
unfolding server_receive
server_receive-Begins [] out = ([], refl)
server_receive-Begins ((o, outs) ∷ rest) out = elim (Bool-cases (is_over (receive_raw true o))) [
  | inl e ↦ rw e (read_bytes true o ++ inbound rest, refl)
  | inr e ↦ rw e (
      Begins-after_write (server_receive true rest) out (read_bytes true o) (inbound rest)
        (send_data_tcp (read_bytes true o) outs) (send_data_tcp-Delivers (read_bytes true o) outs)
        (server_receive-Begins rest))
]
