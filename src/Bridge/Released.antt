-- ===== src/Bridge/Released.antt =====
-- A handle that was closed.
use whet.Bridge.Isolation.{
  perform, value-dial_whap, value-read_whap, value-close_whap, value-forget, LibraryCall, call_dial,
  call_write, call_read, call_close, IsSound,
}
use whet.Base.{
  ℕ, List, Option, ◌∷◌, ◌≤◌, ◌≡◌, none, [], Bool-cases, Option-cases, Bytes, inl, ◌==◌, ==_iff, ◌∙◌,
  inr, some, arith, refl, suc,
}
use whet.Bridge.{
  close_sent, read_whap, close_whap, write_whap, Sending, read_checked, close_found, write_checked,
  ℤ, Handles, Outcome, Closed, Client, ReadOutcome, value, returns, blocked, done, aborts, failed,
  dial_whap, slice_length, Dialled, dials, dial_fails, dial_blocks,
}

abbrev pub performs : List LibraryCall → Handles → Handles
performs [] b = b
performs (q ∷ qs) b = performs qs (perform q b)

dead_after_read :
    (k h : ℕ) (n : ℤ) (o : ReadOutcome) (b : Handles)
    → value k b.table ≡ none
    → value k (read_whap h n o b).1.table ≡ none
unfolding read_whap read_checked
dead_after_read k h n o b dead = elim (Bool-cases (k == h)) [
  | inl e ↦ let same = (==_iff k h).0 e in let gone = rw same at dead in rw (same, gone) gone
  | inr e ↦ value-read_whap k h n o b (λ s. cc ((==_iff k h).1 s, e)) ∙ dead
]

dead_after_close :
    (k h : ℕ) (outs : List Outcome) (client : Client) (amount : ℕ → ℕ) (b : Handles)
    → value k b.table ≡ none
    → value k (close_whap h outs client amount b).1.table ≡ none
unfolding close_whap close_found
dead_after_close k h outs client amount b dead = elim (Bool-cases (k == h)) [
  | inl e ↦ let same = (==_iff k h).0 e in let gone = rw same at dead in rw (same, gone) gone
  | inr e ↦ value-close_whap k h outs client amount b (λ s. cc ((==_iff k h).1 s, e)) ∙ dead
]

last-read_whap :
    (h : ℕ) (n : ℤ) (o : ReadOutcome) (b : Handles) → (read_whap h n o b).1.last ≡ b.last
unfolding read_whap read_checked
last-read_whap h n o b = elim (Option-cases (value h b.table)) [
  | inl e ↦ rw e
  | inr (c, e) ↦ elim (Option-cases (slice_length n)) [ inl f ↦ rw (e, f) | inr (m, f) ↦ rw (e, f) ]
]

last-close_sent :
    (h : ℕ) (s : Sending) (r : Option Closed) (b : Handles) → (close_sent h s r b).1.last ≡ b.last
unfolding close_sent
last-close_sent h (blocked ms) r b = refl
last-close_sent h (done ms) none b = refl
last-close_sent h (failed ms) none b = refl
last-close_sent h (done ms) (some r) b = refl
last-close_sent h (failed ms) (some r) b = refl

last-close_whap :
    (h : ℕ) (outs : List Outcome) (client : Client) (amount : ℕ → ℕ) (b : Handles)
    → (close_whap h outs client amount b).1.last ≡ b.last
unfolding close_whap close_found
last-close_whap h outs client amount b = elim (Option-cases (value h b.table)) [
  | inl e ↦ rw e
  | inr (c, e) ↦ rw e (last-close_sent h _ _ b)
]

last-dial_whap : (d : Dialled) (b : Handles) → b.last ≤ (dial_whap d b).1.last
unfolding dial_whap
last-dial_whap (dials c) b = omega arith
last-dial_whap (dial_fails e) b = omega arith
last-dial_whap dial_blocks b = omega arith

-- A number that was given out and finds nothing finds nothing after another call, and stays given out.
perform_dead :
    (k : ℕ) (q : LibraryCall) (b : Handles)
    → k ≤ b.last
    → value k b.table ≡ none
    → (k ≤ (perform q b).last) × (value k (perform q b).table ≡ none)
perform_dead k (call_dial d) b le dead =
    (omega (arith, le, last-dial_whap d b), value-dial_whap k d b le ∙ dead)
perform_dead k (call_write h bytes n outs) b le dead = (le, dead)
perform_dead k (call_read h n o) b le dead =
    (omega (arith, le, last-read_whap h n o b), dead_after_read k h n o b dead)
perform_dead k (call_close h outs client amount) b le dead = (
  omega (arith, le, last-close_whap h outs client amount b),
  dead_after_close k h outs client amount b dead,
)

performs_dead :
    (k : ℕ) (qs : List LibraryCall) (b : Handles)
    → k ≤ b.last
    → value k b.table ≡ none
    → value k (performs qs b).table ≡ none
performs_dead k [] b le dead = dead
performs_dead k (q ∷ qs) b le dead =
    let (le', dead') = perform_dead k q b le dead in performs_dead k qs (perform q b) le' dead'

-- A close that returns has taken the handle out of the table.
close_sent-forgets :
    (h : ℕ) (s : Sending) (r : Option Closed) (b : Handles) (x : Sending × Closed)
    → (close_sent h s r b).0 ≡ returns x
    → value h (close_sent h s r b).1.table ≡ none
unfolding close_sent
close_sent-forgets h (blocked ms) r b x e = cc
close_sent-forgets h (done ms) none b x e = cc
close_sent-forgets h (failed ms) none b x e = cc
close_sent-forgets h (done ms) (some r) b x e = rw (value-forget h h b.table) (ground arith)
close_sent-forgets h (failed ms) (some r) b x e = rw (value-forget h h b.table) (ground arith)

close_whap-forgets :
    (h : ℕ) (outs : List Outcome) (client : Client) (amount : ℕ → ℕ) (b : Handles)
    (x : Sending × Closed)
    → (close_whap h outs client amount b).0 ≡ returns x
    → value h (close_whap h outs client amount b).1.table ≡ none
unfolding close_whap close_found
close_whap-forgets h outs client amount b x e = elim (Option-cases (value h b.table)) [
  | inl f ↦ rw f f
  | inr (c, f) ↦ rw f (close_sent-forgets h _ _ b x (rw f at e))
]

-- Once a close of a handle has returned, and whatever calls follow, dials included, every further
-- write, read or close on the handle panics.
pub closed_stays :
    (h : ℕ) (outs : List Outcome) (client : Client) (amount : ℕ → ℕ) (b : Handles)
    (x : Sending × Closed) (qs : List LibraryCall)
    → h ≤ b.last
    → (close_whap h outs client amount b).0 ≡ returns x
    → let b' = performs qs (close_whap h outs client amount b).1 in
      ((bytes : Bytes) (n : ℤ) (more : List Outcome) → write_whap h bytes n more b' ≡ aborts)
      × ((n : ℤ) (o : ReadOutcome) → (read_whap h n o b').0 ≡ aborts)
      × ((close_whap h outs client amount b').0 ≡ aborts)
unfolding write_whap read_whap read_checked close_whap close_found write_checked
closed_stays h outs client amount b x qs le e =
    let gone = close_whap-forgets h outs client amount b x e in
    let dead =
      performs_dead h qs (close_whap h outs client amount b).1
        (omega (arith, le, last-close_whap h outs client amount b)) gone in
    rw dead ((λ bytes n more. refl), (λ n o. refl), refl)

-- A table that finds nothing new is sound if the one before was.
nothing_new :
    (b b' : Handles)
    → IsSound b
    → b.last ≤ b'.last
    → ((k : ℕ) → value k b.table ≡ none → value k b'.table ≡ none)
    → IsSound b'
nothing_new b b' s le dead = record {
  given = λ h c e. elim (Option-cases (value h b.table)) [
    | inl f ↦ cc (e, dead h f)
    | inr (d, f) ↦ let (lo, hi) = s.given h d f in (lo, omega arith)
  ];
}

dial_whap-IsSound : (d : Dialled) (b : Handles) → IsSound b → IsSound (dial_whap d b).1
unfolding dial_whap value
dial_whap-IsSound (dials c) b s = record {
  given = λ h x e. elim (Bool-cases (h == suc b.last)) [
    | inl f ↦ let same = (==_iff h (suc b.last)).0 f in (omega arith, omega arith)
    | inr f ↦ let (lo, hi) = s.given h x (rw f at e) in (lo, omega arith)
  ];
}
dial_whap-IsSound (dial_fails e) b s = s
dial_whap-IsSound dial_blocks b s = s

-- Every call keeps the table sound: what it finds has a number that was given out, and that is not 0.
pub perform-IsSound : (q : LibraryCall) (b : Handles) → IsSound b → IsSound (perform q b)
perform-IsSound (call_dial d) b s = dial_whap-IsSound d b s
perform-IsSound (call_write h bytes n outs) b s = s
perform-IsSound (call_read h n o) b s =
    nothing_new b (read_whap h n o b).1 s (omega (arith, last-read_whap h n o b))
      (λ k. dead_after_read k h n o b)
perform-IsSound (call_close h outs client amount) b s =
    nothing_new b (close_whap h outs client amount b).1 s
      (omega (arith, last-close_whap h outs client amount b))
      (λ k. dead_after_close k h outs client amount b)
