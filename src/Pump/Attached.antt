-- ===== src/Pump/Attached.antt =====
-- pkg/client.go, `HandleClientConnection`: the `OnMessage` callback of the attached mode, with its
-- handshake. Each message comes with whether the `Write` of it succeeds.
pub mod Mixed
use whet.Base.{
  List, Bytes, ℕ, Bool, ◌++◌, codes, if◌then◌else◌, ◌≡◌, false, bytes_eq, [], ◌∷◌, true, ◌-◌, refl,
  ap, sym, ◌∙◌, append-nil, append_assoc,
}

pub record Attached : Type 0 where
  pub client_ready : Bool
  -- The counter of the wait group that the sending loop waits for.
  pub wait_group : ℕ
  pub conn_closed : Bool
  pub sent : List Bytes
  pub written : Bytes
  -- `done` was signalled; the function receives from it once.
  pub signalled : Bool
  -- The callback is blocked in a second signal.
  pub is_stuck : Bool

abbrev pub server_ready : Bytes
server_ready = codes "SERVER_READY"

abbrev pub client_ready_text : Bytes
client_ready_text = codes "CLIENT_READY"

-- An error of the `Write` is only printed. A panic of the wait group, whose counter would fall below 0,
-- cannot occur: the callback calls `Done` once.
unfoldable pub on_message : Bytes → Bool → Attached → Attached
on_message message writes a =
    if a.is_stuck
    then a
    else if a.client_ready
    then (if writes then record a { written = a.written ++ message } else a)
    else if bytes_eq message server_ready
    then record a {
      sent = a.sent ++ client_ready_text ∷ [];
      client_ready = true;
      wait_group = a.wait_group - 1;
    }
    else record a { conn_closed = true; signalled = true; is_stuck = a.signalled }

unfoldable pub on_messages : List (Bytes × Bool) → Attached → Attached
on_messages [] a = a
on_messages ((m, writes) ∷ ms) a = on_messages ms (on_message m writes a)

-- The state when the callback is set: `wait_group` is 2, or 1 once the channel is open.
abbrev pub attaches : ℕ → Attached
attaches n = record {
  client_ready = false;
  wait_group = n;
  conn_closed = false;
  sent = [];
  written = [];
  signalled = false;
  is_stuck = false;
}

-- The messages that were written.
abbrev pub kept : List (Bytes × Bool) → Bytes
kept [] = []
kept ((m, true) ∷ ms) = m ++ kept ms
kept ((m, false) ∷ ms) = kept ms

-- No message is the server's signal.
abbrev pub Unready : List (Bytes × Bool) → Type 0
Unready [] = Unit
Unready ((m, w) ∷ ms) = (bytes_eq m server_ready ≡ false) × Unready ms

on_message-ready :
    (m : Bytes) (w : Bool) (a : Attached)
    → a.client_ready ≡ true
    → a.is_stuck ≡ false
    → on_message m w a ≡ (if w then record a { written = a.written ++ m } else a)
unfolding on_message
on_message-ready m w a r s = simp (r, s)

on_messages-ready :
    (ms : List (Bytes × Bool)) (a : Attached)
    → a.client_ready ≡ true
    → a.is_stuck ≡ false
    → on_messages ms a ≡ record a { written = a.written ++ kept ms }
unfolding on_messages
on_messages-ready [] a r s = ap (λ out. record a { written = out }) (sym (append-nil a.written))
on_messages-ready ((m, true) ∷ ms) a r s =
    ap (on_messages ms) (on_message-ready m true a r s)
    ∙ (on_messages-ready ms (record a { written = a.written ++ m }) r s
        ∙ ap (λ out. record a { written = out }) (append_assoc a.written m (kept ms)))
on_messages-ready ((m, false) ∷ ms) a r s =
    ap (on_messages ms) (on_message-ready m false a r s) ∙ on_messages-ready ms a r s

on_message-other :
    (m : Bytes) (w : Bool) (a : Attached)
    → a.client_ready ≡ false
    → a.is_stuck ≡ false
    → bytes_eq m server_ready ≡ false
    → on_message m w a ≡ record a { conn_closed = true; signalled = true; is_stuck = a.signalled }
unfolding on_message
on_message-other m w a r s e = simp (r, s, e)

on_message-stuck : (m : Bytes) (w : Bool) (a : Attached) → a.is_stuck ≡ true → on_message m w a ≡ a
unfolding on_message
on_message-stuck m w a s = simp s

on_messages-stuck :
    (ms : List (Bytes × Bool)) (a : Attached) → a.is_stuck ≡ true → on_messages ms a ≡ a
unfolding on_messages
on_messages-stuck [] a s = refl
on_messages-stuck ((m, w) ∷ ms) a s =
    ap (on_messages ms) (on_message-stuck m w a s) ∙ on_messages-stuck ms a s

-- How the callback stands after `early`, the server's signal and `later`.
abbrev pub attached_after : List (Bytes × Bool) → List (Bytes × Bool) → ℕ → Attached
attached_after [] later n = record (attaches n) {
  client_ready = true;
  wait_group = n - 1;
  sent = client_ready_text ∷ [];
  written = kept later;
}
attached_after (x ∷ []) later n = record (attaches n) {
  client_ready = true;
  wait_group = n - 1;
  conn_closed = true;
  sent = client_ready_text ∷ [];
  written = kept later;
  signalled = true;
}
attached_after (x ∷ y ∷ more) later n = record (attaches n) {
  conn_closed = true;
  signalled = true;
  is_stuck = true;
}

-- The server's signal, if it is the first message, is answered once and lets the sending loop go, and
-- what follows is written in order, less the writes that fail. One other message before it closes the
-- TCP connection, but the signal is still answered; two of them block the callback for good, and then
-- nothing is sent or written.
pub attached_mode :
    (early : List (Bytes × Bool)) (w : Bool) (later : List (Bytes × Bool)) (n : ℕ)
    → Unready early
    → on_messages (early ++ (server_ready, w) ∷ later) (attaches n) ≡ attached_after early later n
unfolding on_messages on_message bytes_eq
attached_mode [] w later n u = on_messages-ready later _ refl refl
attached_mode ((m, v) ∷ []) w later n (e, u) =
    ap (λ a. on_messages ((server_ready, w) ∷ later) a)
      (on_message-other m v (attaches n) refl refl e)
    ∙ on_messages-ready later _ refl refl
attached_mode ((m, v) ∷ (k, x) ∷ more) w later n (e, (d, u)) =
    let rest = more ++ (server_ready, w) ∷ later in
    ap (λ a. on_messages rest (on_message k x a)) (on_message-other m v (attaches n) refl refl e)
    ∙ (ap (on_messages rest) (on_message-other k x _ refl refl d) ∙ on_messages-stuck rest _ refl)
