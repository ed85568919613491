-- ===== src/Client/Dial/Waiting/Blocking.antt =====
-- What a dial keeps waiting while it waits itself.
use whet.Base.{ℕ, ◌≡◌, refl, Bool, true, false, some, ==_iff, arith, ◌∙◌}
use whet.Client.Dial.Waiting.{
  asking, answered, attached, failed, answers, fails_early, opens_attached, shakes_badly, attaches,
  crashes, runs, ProcessMove, channel_dial, stored, waiting, returned, Callback, unopened, shaking,
  over, Dial, store_dial, end_shake, Move, opens, opens_badly, shakes, stores, Process, enter_map,
  return_dial, moves, enters, returns, serves, ProcessRun, here, next, idle_process, ProcessStep,
}

abbrev pub is_waiting : Dial → Bool
is_waiting d = elim d.stage [
  | asking ↦ false
  | answered ↦ false
  | attached ↦ false
  | failed ↦ false
  | stored ↦ false
  | waiting ↦ true
  | returned ↦ false
]

abbrev pub is_returned : Dial → Bool
is_returned d = elim d.stage [
  | asking ↦ false
  | answered ↦ false
  | attached ↦ false
  | failed ↦ false
  | stored ↦ false
  | waiting ↦ false
  | returned ↦ true
]

abbrev pub is_over : Callback → Bool
is_over unopened = false
is_over shaking = false
is_over (over b) = true

-- The dial that waits is the one that holds the lock.
pub record IsHeld (p : Process) : Type 0 where
  pub holds : (i : ℕ) → is_waiting (p.dials i) ≡ true → p.holder ≡ some i
  pub waits : (i : ℕ) → p.holder ≡ some i → is_waiting (p.dials i) ≡ true

Move-is_waiting : {d e : Dial} → Move d e → is_waiting e ≡ is_waiting d
unfolding channel_dial store_dial end_shake
Move-is_waiting (answers h) = rw h refl
Move-is_waiting (fails_early h) = rw h refl
Move-is_waiting (opens h c) = refl
Move-is_waiting (opens_badly h c) = refl
Move-is_waiting (opens_attached h c) = refl
Move-is_waiting (shakes h c) = refl
Move-is_waiting (shakes_badly h) = refl
Move-is_waiting (attaches h) = rw h refl
Move-is_waiting (stores h) = rw h refl

Move-is_returned : {d e : Dial} → Move d e → is_returned e ≡ is_returned d
unfolding channel_dial store_dial end_shake
Move-is_returned (answers h) = rw h refl
Move-is_returned (fails_early h) = rw h refl
Move-is_returned (opens h c) = refl
Move-is_returned (opens_badly h c) = refl
Move-is_returned (opens_attached h c) = refl
Move-is_returned (shakes h c) = refl
Move-is_returned (shakes_badly h) = refl
Move-is_returned (attaches h) = rw h refl
Move-is_returned (stores h) = rw h refl

ProcessMove-IsHeld : {p q : Process} → ProcessMove p q → IsHeld p → IsHeld q
unfolding enter_map return_dial
ProcessMove-IsHeld {p} (moves i m) k = record {
  holds = λ j h. ground (arith, ==_iff i j, Move-is_waiting m, k.holds j, k.holds i);
  waits = λ j h. ground (arith, ==_iff i j, Move-is_waiting m, k.waits j, k.waits i);
}
ProcessMove-IsHeld {p} (enters i e f) k = record {
  holds = λ j h. ground (arith, ==_iff i j, k.holds j, f);
  waits = λ j h. ground (arith, ==_iff i j, h);
}
ProcessMove-IsHeld {p} (returns i b e f) k = record {
  holds = λ j h. ground (arith, ==_iff i j, k.holds j, k.holds i, e);
  waits = λ j h. cc;
}
ProcessMove-IsHeld (crashes i e f) k = record { holds = k.holds; waits = k.waits }
ProcessMove-IsHeld (serves e) k = record { holds = k.holds; waits = k.waits }

ProcessStep-IsHeld : {p q : Process} → ProcessStep p q → IsHeld p → IsHeld q
ProcessStep-IsHeld (runs c m) k = ProcessMove-IsHeld m k

ProcessRun-IsHeld : {p q : Process} → ProcessRun p q → IsHeld p → IsHeld q
ProcessRun-IsHeld here k = k
ProcessRun-IsHeld (next r s) k = ProcessStep-IsHeld s (ProcessRun-IsHeld r k)

pub idle-IsHeld : (p : Process) → ProcessRun idle_process p → IsHeld p
idle-IsHeld p r = ProcessRun-IsHeld r (record { holds = λ i h. cc; waits = λ i h. cc })

-- From `p` to `q` no request was served, and no dial returned after its answer was set.
pub record IsStill (i : ℕ) (p q : Process) : Type 0 where
  pub waits : is_waiting (q.dials i) ≡ true
  pub served : q.served ≡ p.served
  pub returned : (j : ℕ) → is_returned (q.dials j) ≡ is_returned (p.dials j)

ProcessMove-IsStill :
    {p q : Process} (i : ℕ)
    → ProcessMove p q
    → IsHeld p
    → is_waiting (p.dials i) ≡ true
    → is_over (q.dials i).callback ≡ false
    → IsStill i p q
unfolding enter_map return_dial
ProcessMove-IsStill i (moves j m) k h o = record {
  waits = ground (arith, ==_iff j i, Move-is_waiting m, h);
  served = refl;
  returned = λ l. ground (arith, ==_iff j l, Move-is_returned m);
}
ProcessMove-IsStill i (crashes j e f) k h o = record {
  waits = h;
  served = refl;
  returned = λ l. refl;
}
ProcessMove-IsStill i (enters j e f) k h o = absurd (ground (arith, k.holds i h, f))
ProcessMove-IsStill i (returns j b e f) k h o =
    absurd (ground (arith, k.holds i h, k.holds j, e, ==_iff j i, f, o))
ProcessMove-IsStill i (serves e) k h o = absurd (ground (arith, k.holds i h, e))

ProcessStep-IsStill :
    {p q : Process} (i : ℕ)
    → ProcessStep p q
    → IsHeld p
    → is_waiting (p.dials i) ≡ true
    → is_over (q.dials i).callback ≡ false
    → IsStill i p q
ProcessStep-IsStill i (runs c m) k h o = ProcessMove-IsStill i m k h o

Move-is_over : {d e : Dial} → Move d e → is_over e.callback ≡ false → is_over d.callback ≡ false
unfolding channel_dial store_dial end_shake
Move-is_over (answers h) o = ground (arith, h, o)
Move-is_over (fails_early h) o = ground (arith, h, o)
Move-is_over (opens h c) o = ground (arith, h, o)
Move-is_over (opens_badly h c) o = ground (arith, h, o)
Move-is_over (opens_attached h c) o = ground (arith, h, o)
Move-is_over (shakes h c) o = ground (arith, h, o)
Move-is_over (shakes_badly h) o = ground (arith, h, o)
Move-is_over (attaches h) o = ground (arith, h, o)
Move-is_over (stores h) o = ground (arith, h, o)

-- A callback that is over stays over.
ProcessMove-is_over :
    {p q : Process} (i : ℕ)
    → ProcessMove p q
    → is_over (q.dials i).callback ≡ false
    → is_over (p.dials i).callback ≡ false
unfolding enter_map return_dial
ProcessMove-is_over i (moves j m) o = ground (arith, ==_iff j i, Move-is_over m, o)
ProcessMove-is_over i (enters j e f) o = ground (arith, ==_iff j i, o)
ProcessMove-is_over i (returns j b e f) o = ground (arith, ==_iff j i, o)
ProcessMove-is_over i (crashes j e f) o = o
ProcessMove-is_over i (serves e) o = o

ProcessStep-is_over :
    {p q : Process} (i : ℕ)
    → ProcessStep p q
    → is_over (q.dials i).callback ≡ false
    → is_over (p.dials i).callback ≡ false
ProcessStep-is_over i (runs c m) o = ProcessMove-is_over i m o

-- From any reachable state in which a dial waits for its handshake, and for as long as its callback is not
-- over, however many dials and requests there are and however they interleave: the dial still waits, no
-- other dial whose answer is set returns (one that fails before that needs no lock, and does return), and
-- no request of a server of the process gets to the map.
pub waiting_blocks :
    (p : Process) (r : ProcessRun idle_process p) (i : ℕ) (q : Process) (s : ProcessRun p q)
    → is_waiting (p.dials i) ≡ true
    → is_over (q.dials i).callback ≡ false
    → IsStill i p q
waiting_blocks p r i q here h o = record { waits = h; served = refl; returned = λ j. refl }
waiting_blocks p r i q (next s st) h o =
    let before = waiting_blocks p r i _ s h (ProcessStep-is_over i st o) in
    let held = ProcessRun-IsHeld s (idle-IsHeld p r) in
    let after = ProcessStep-IsStill i st held before.waits o in
    record {
      waits = after.waits;
      served = after.served ∙ before.served;
      returned = λ j. after.returned j ∙ before.returned j;
    }
