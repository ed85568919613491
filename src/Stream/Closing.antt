-- ===== src/Stream/Closing.antt =====
-- `Close` ends after a bounded wait, and does its work once.
use whet.Base.{
  ℕ, ◌≡◌, ◌+◌, false, ◌≤◌, ◌⊎◌, some, true, arith, suc, none, refl, Bool-cases, [], ltb, inr, inl,
  zero, subst, sym, ◌∙◌, ltb→lt,
}
use whet.Stream.Close.{Drained, drain, close_fuel, Conn, Client, Closed, tear_down, close}

-- The amount fell to 0 after as many rounds, or it never did and the loop gave up after 101.
abbrev pub Waited : (ℕ → ℕ) → Drained → Type 0
Waited amount d =
    ((d.gave_up ≡ false) × (d.sleeps ≤ 100) × (amount d.sleeps ≡ 0))
    ⊎ ((d.gave_up ≡ true) × (d.sleeps ≡ 101) × (1 ≤ amount 100))

drain_ends :
    (fuel : ℕ) (amount : ℕ → ℕ) (lcount : ℕ)
    → lcount + fuel ≡ 101
    → 1 ≤ fuel
    → (d : Drained) × (drain fuel amount lcount ≡ some d) × (lcount ≤ d.sleeps) × Waited amount d
unfolding drain
drain_ends zero amount lcount e h = absurd (omega arith)
drain_ends (suc fuel) amount lcount e h = elim (Bool-cases (ltb 0 (amount lcount))) [
  | inr empty ↦ (record { sleeps = lcount; gave_up = false }, rw empty, omega arith, ground arith)
  | inl full ↦ elim (Bool-cases (ltb 100 (lcount + 1))) [
    | inl late ↦
        let last : lcount ≡ 100 = ground arith in
        (
          record { sleeps = lcount + 1; gave_up = true },
          rw (full, late),
          omega arith,
          inr (
            refl,
            omega arith,
            subst (λ (k : ℕ). 1 ≤ amount k) last (ltb→lt 0 (amount lcount) full),
          ),
        )
    | inr early ↦
        let (d, ends, le, w) = drain_ends fuel amount (lcount + 1) (omega arith) (ground arith) in
        (d, rw (full, early) ends, omega arith, w)
  ]
]

-- What `Close` does to an open connection: it returns after at most 101 sleeps of 10 ms, having waited
-- until the buffer was empty or given up, and has then torn the connection down.
pub close_open :
    (client : Client) (amount : ℕ → ℕ) (c : Conn)
    → c.closed ≡ false
    → (d : Drained) × Waited amount d
      × (drain close_fuel amount 0 ≡ some d)
      × (close client amount c ≡ some (tear_down client (record c { closed = true })))
unfolding close
close_open client amount c e =
    let (d, ends, le, w) = drain_ends close_fuel amount 0 refl (omega arith) in
    (d, w, ends, rw (e, ends, close))

tear_down-closed :
    (client : Client) (c : Conn) → c.closed ≡ true → (tear_down client c).conn.closed ≡ true
unfolding tear_down
tear_down-closed client c e = ground arith

closed_after :
    (client : Client) (amount : ℕ → ℕ) (c : Conn) (r : Closed)
    → close client amount c ≡ some r
    → r.conn.closed ≡ true
closed_after client amount c r h = elim (Bool-cases c.closed) [
  | inl e ↦ unfold close in ground (arith, e, h)
  | inr e ↦
      let (d, w, ends, returns) = close_open client amount c e in
      let same : some r ≡ some (tear_down client (record c { closed = true })) = sym h ∙ returns in
      let torn = tear_down-closed client (record c { closed = true }) refl in
      ground (arith, same, torn)
]

-- After a `Close`, also one that returned an error, another `Close` returns no error and does nothing,
-- whatever the channel and the HTTP client do.
pub close_twice :
    (client other : Client) (amount later : ℕ → ℕ) (c : Conn) (r : Closed)
    → close client amount c ≡ some r
    → close other later r.conn ≡ some (record { error = none; effects = []; conn = r.conn })
unfolding close
close_twice client other amount later c r h = rw (closed_after client amount c r h)
