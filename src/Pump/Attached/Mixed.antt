-- ===== src/Pump/Attached/Mixed.antt =====
-- A client in attached mode and a server in detached mode, which sends another signal.
use whet.Base.{
  List, Bytes, ℕ, Bool, ◌++◌, ◌≡◌, false, true, bytes_eq, bytes_eq_iff, [], ◌∷◌, refl, Lacks,
  Bool-cases, inl, inr, arith, All, ◌≢◌, subst, ◌∙◌, ap,
}
use mathlib.Core.List.{flatten}
use whet.Handshake.{ready_message}
use whet.Transfer.{Outcome, send_raw, done}
use whet.Transfer.Delivery.{Delivers, send_raw-Delivers}
use whet.Pump.Attached.{
  Attached, server_ready, on_message, on_messages, attaches, Unready, on_message-other,
  on_message-stuck,
}

Lacks-split : (c : ℕ) (s t : Bytes) → Lacks c (s ++ t) → Lacks c s × Lacks c t
Lacks-split c [] t h = (tt, h)
Lacks-split c (d ∷ s) t (hd, hs) = let (a, b) = Lacks-split c s t hs in ((hd, a), b)

Lacks-pieces : (c : ℕ) (ms : List Bytes) → Lacks c (flatten ms) → All (Lacks c) ms
unfolding flatten
Lacks-pieces c [] h = tt
Lacks-pieces c (m ∷ ms) h = let (a, b) = Lacks-split c m (flatten ms) h in (a, Lacks-pieces c ms b)

ready_message-Lacks : Lacks b'V' ready_message
ready_message-Lacks = ground arith

Lacks-ne : (m : Bytes) → Lacks b'V' m → bytes_eq m server_ready ≡ false
Lacks-ne m h = elim (Bool-cases (bytes_eq m server_ready)) [
  | inl e ↦
      let bad = subst (Lacks b'V') ((bytes_eq_iff m server_ready).0 e) h in
      let (s, (e2, (r, (v, more)))) = bad in absurd (v refl)
  | inr e ↦ e
]

abbrev pub texts : List (Bytes × Bool) → List Bytes
texts [] = []
texts ((m, w) ∷ xs) = m ∷ texts xs

texts-Unready : (xs : List (Bytes × Bool)) → All (Lacks b'V') (texts xs) → Unready xs
texts-Unready [] h = tt
texts-Unready ((m, w) ∷ xs) (h, hs) = (Lacks-ne m h, texts-Unready xs hs)

-- Nothing was answered or written from `a` to `b`.
pub record IsIdle (a b : Attached) : Type 0 where
  pub unready : b.client_ready ≡ false
  pub waits : b.wait_group ≡ a.wait_group
  pub silent : b.sent ≡ a.sent
  pub unwritten : b.written ≡ a.written
  pub stays_closed : a.conn_closed ≡ true → b.conn_closed ≡ true

on_message-IsIdle :
    (m : Bytes) (w : Bool) (a : Attached)
    → a.client_ready ≡ false
    → bytes_eq m server_ready ≡ false
    → IsIdle a (on_message m w a)
on_message-IsIdle m w a r e = elim (Bool-cases a.is_stuck) [
  | inl s ↦
      rw (on_message-stuck m w a s) (record {
        unready = r;
        waits = refl;
        silent = refl;
        unwritten = refl;
        stays_closed = λ c. c;
      })
  | inr s ↦ rw (on_message-other m w a r s e) (record {
    unready = r;
    waits = refl;
    silent = refl;
    unwritten = refl;
    stays_closed = λ c. refl;
  })
]

on_messages-IsIdle :
    (xs : List (Bytes × Bool)) (a : Attached)
    → a.client_ready ≡ false
    → Unready xs
    → IsIdle a (on_messages xs a)
unfolding on_messages
on_messages-IsIdle [] a r u = record {
  unready = r;
  waits = refl;
  silent = refl;
  unwritten = refl;
  stays_closed = λ c. c;
}
on_messages-IsIdle ((m, w) ∷ xs) a r (e, u) =
    let first = on_message-IsIdle m w a r e in
    let rest = on_messages-IsIdle xs (on_message m w a) first.unready u in
    record {
      unready = rest.unready;
      waits = rest.waits ∙ first.waits;
      silent = rest.silent ∙ first.silent;
      unwritten = rest.unwritten ∙ first.unwritten;
      stays_closed = λ c. rest.stays_closed (first.stays_closed c);
    }

first_closes :
    (n : ℕ) (xs : List (Bytes × Bool))
    → Unready xs
    → flatten (texts xs) ≢ []
    → (on_messages xs (attaches n)).conn_closed ≡ true
unfolding on_messages flatten
first_closes n [] u h = absurd (h refl)
first_closes n ((m, w) ∷ xs) (e, u) h =
    let first = on_message-other m w (attaches n) refl refl e in
    let after = on_message m w (attaches n) in
    (on_messages-IsIdle xs after (ap (λ (a : Attached). a.client_ready) first) u).stays_closed
      (ap (λ (a : Attached). a.conn_closed) first)

-- A server in detached mode sends its signal as READY_TO_TRANSMIT. Whatever messages that comes in, a
-- client in attached mode answers none of them: it writes nothing to its TCP connection, which it closes,
-- and its sending loop is not let go.
pub attached_never_ready :
    (outs : List Outcome) (ms : List Bytes) (xs : List (Bytes × Bool)) (n : ℕ)
    → send_raw true ready_message outs ≡ done ms
    → texts xs ≡ ms
    → let a = on_messages xs (attaches n) in
      (a.client_ready ≡ false)
      × (a.wait_group ≡ n)
      × (a.sent ≡ [])
      × (a.written ≡ [])
      × (a.conn_closed ≡ true)
attached_never_ready outs ms xs n h e =
    let whole : flatten ms ≡ ready_message =
      subst (Delivers ready_message) h (send_raw-Delivers true ready_message outs) in
    let pieces : All (Lacks b'V') ms = Lacks-pieces b'V' ms (rw whole ready_message-Lacks) in
    let unready = texts-Unready xs (rw e pieces) in
    let idle = on_messages-IsIdle xs (attaches n) refl unready in
    (
      idle.unready,
      idle.waits,
      idle.silent,
      idle.unwritten,
      first_closes n xs unready (rw (e, whole) (λ z. cc)),
    )
