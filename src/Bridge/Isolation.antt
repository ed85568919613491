-- ===== src/Bridge/Isolation.antt =====
-- The handles of the C library: what a call on one does to the others.
use whet.Base.{
  [], ◌∷◌, ℕ, Bytes, ◌≢◌, ◌≡◌, ◌==◌, List, if◌then◌else◌, false, ◌+◌, some, Bool-cases, ◌<◌, none,
  ◌≤◌, arith, inl, ◌^◌, ==_iff, inr, Option-cases, suc, refl, Option, sym,
}
use whet.Stream.Made.{Dialled}
use whet.Bridge.{
  Handles, dial_whap, value, update, read_whap, forget, WebrtcConn, dials, close_whap, ℤ, Outcome,
  ReadOutcome, Client, returns, uint, read_checked, dial_fails, dial_blocks, close_sent,
  close_found, Sending, slice_length, Closed, blocked, done, failed,
}

-- The numbers of the table are those that were given out, which start at 1.
pub record IsSound (b : Handles) : Type 0 where
  pub given : (h : ℕ) (c : WebrtcConn) → value h b.table ≡ some c → (1 ≤ h) × (h ≤ b.last)

-- A call of the library.
pub data LibraryCall : Type 0 where
  call_dial : Dialled → LibraryCall
  call_write : ℕ → Bytes → ℤ → List Outcome → LibraryCall
  call_read : ℕ → ℤ → ReadOutcome → LibraryCall
  call_close : ℕ → List Outcome → Client → (ℕ → ℕ) → LibraryCall

-- The table after a call.
abbrev pub perform : LibraryCall → Handles → Handles
perform (call_dial d) b = (dial_whap d b).1
perform (call_write h bytes n outs) b = b
perform (call_read h n o) b = (read_whap h n o b).1
perform (call_close h outs client amount) b = (close_whap h outs client amount b).1

-- The call is not on this handle.
abbrev pub Spares : ℕ → LibraryCall → Type 0
Spares k (call_dial d) = Unit
Spares k (call_write h bytes n outs) = Unit
Spares k (call_read h n o) = k ≢ h
Spares k (call_close h outs client amount) = k ≢ h

differs : (k h : ℕ) → k ≢ h → (k == h) ≡ false
differs k h n = elim (Bool-cases (k == h)) [ inl e ↦ absurd (n ((==_iff k h).0 e)) | inr e ↦ e ]

pub value-forget :
    (k h : ℕ) (table : List (ℕ × WebrtcConn))
    → value k (forget h table) ≡ (if h == k then none else value k table)
unfolding value forget
value-forget k h [] = ground arith
value-forget k h ((j, c) ∷ table) =
    ground (arith, ==_iff k j, ==_iff h j, ==_iff h k, value-forget k h table)

value-update :
    (k h : ℕ) (c : WebrtcConn) (table : List (ℕ × WebrtcConn))
    → k ≢ h
    → value k (update h c table) ≡ value k table
unfolding value update
value-update k h c [] n = refl
value-update k h c ((j, d) ∷ table) n =
    ground (arith, ==_iff k j, ==_iff h j, differs k h n, value-update k h c table n)

handle_free : (b : Handles) (h : ℕ) → IsSound b → b.last < h → value h b.table ≡ none
handle_free b h s l = elim (Option-cases (value h b.table)) [
  | inl e ↦ e
  | inr (c, e) ↦ absurd (omega (arith, (s.given h c e).1))
]

pub value-read_whap :
    (k h : ℕ) (n : ℤ) (o : ReadOutcome) (b : Handles)
    → k ≢ h
    → value k (read_whap h n o b).1.table ≡ value k b.table
unfolding read_whap read_checked
value-read_whap k h n o b ne = elim (Option-cases (value h b.table)) [
  | inl e ↦ rw e
  | inr (c, e) ↦ elim (Option-cases (slice_length n)) [
    | inl f ↦ rw (e, f)
    | inr (m, f) ↦ rw (e, f) (value-update k h _ b.table ne)
  ]
]

value-close_sent :
    (k h : ℕ) (s : Sending) (r : Option Closed) (b : Handles)
    → k ≢ h
    → value k (close_sent h s r b).1.table ≡ value k b.table
unfolding close_sent
value-close_sent k h (blocked ms) r b ne = refl
value-close_sent k h (done ms) none b ne = refl
value-close_sent k h (failed ms) none b ne = refl
value-close_sent k h (done ms) (some r) b ne =
    rw (value-forget k h b.table, differs h k (λ e. ne (sym e)))
value-close_sent k h (failed ms) (some r) b ne =
    rw (value-forget k h b.table, differs h k (λ e. ne (sym e)))

pub value-close_whap :
    (k h : ℕ) (outs : List Outcome) (client : Client) (amount : ℕ → ℕ) (b : Handles)
    → k ≢ h
    → value k (close_whap h outs client amount b).1.table ≡ value k b.table
unfolding close_whap close_found
value-close_whap k h outs client amount b ne = elim (Option-cases (value h b.table)) [
  | inl e ↦ rw e
  | inr (c, e) ↦ rw e (value-close_sent k h _ _ b ne)
]

pub value-dial_whap :
    (k : ℕ) (d : Dialled) (b : Handles)
    → k ≤ b.last
    → value k (dial_whap d b).1.table ≡ value k b.table
unfolding dial_whap value
value-dial_whap k (dials c) b le = ground arith
value-dial_whap k (dial_fails e) b le = refl
value-dial_whap k dial_blocks b le = refl

-- Isolation: a call on another handle, or a dial, leaves the connection behind a handle that was given
-- out as it was, also if the handle is closed.
pub perform_other :
    (k : ℕ) (q : LibraryCall) (b : Handles)
    → k ≤ b.last
    → Spares k q
    → value k (perform q b).table ≡ value k b.table
perform_other k (call_dial d) b le s = value-dial_whap k d b le
perform_other k (call_write h bytes n outs) b le s = refl
perform_other k (call_read h n o) b le s = value-read_whap k h n o b s
perform_other k (call_close h outs client amount) b le s =
    value-close_whap k h outs client amount b s

-- With fewer than 2 ^ 32 - 1 handles given out, a dial that succeeds returns a number that is neither 0
-- nor a handle in use, finds the connection under it, and leaves every other handle as it was.
pub dial_whap-handle :
    (b : Handles) (c : WebrtcConn)
    → IsSound b
    → b.last + 1 < 2 ^ 32
    → (h : ℕ) × ((dial_whap (dials c) b).0 ≡ returns h)
      × (1 ≤ h)
      × (value h b.table ≡ none)
      × (value h (dial_whap (dials c) b).1.table ≡ some c)
unfolding dial_whap value
dial_whap-handle b c s fits =
    let small : uint (suc b.last) ≡ suc b.last = omega arith in
    (suc b.last, rw small, omega arith, handle_free b (suc b.last) s (omega arith), ground arith)

-- The dial that follows 2 ^ 32 - 1 others returns 0, which stands for an error, though it succeeds: its
-- connection stays in the table under a number that is no `C.uint`.
pub dial_whap-overflow :
    (b : Handles) (c : WebrtcConn)
    → b.last + 1 ≡ 2 ^ 32
    → ((dial_whap (dials c) b).0 ≡ returns 0)
      × (value (2 ^ 32) (dial_whap (dials c) b).1.table ≡ some c)
unfolding dial_whap value
dial_whap-overflow b c e = (ground arith, ground arith)
