-- ===== src/Client/Dial/Waiting.antt =====
-- pkg/client.go, `DialClientConnection`, which waits for its handshake with the lock of the map held:
-- any number of dials of one process with their `OnOpen` callbacks, and the requests to a server of that
-- process, which take the same lock. A dial that is not made yet makes no step. A handshake that sends
-- its signal before `c.dataChannel` is set ends the process in a panic.
pub mod Blocking
use whet.Base.{ℕ, suc, ◌≡◌, Bool, true, false, Option, none, some, ◌==◌, if◌then◌else◌}

-- It has no answer yet; the answer is set; `c.dataChannel` is set; the other fields are set; it waits with
-- the lock held; it has returned; it has returned an error before its answer was set.
pub data Stage : Type 0 where
  asking answered attached stored waiting returned failed : Stage

-- Not open yet; in the handshake; over, with or without success.
pub data Callback : Type 0 where
  unopened shaking : Callback
  over : Bool → Callback

pub record Dial : Type 0 where
  pub stage : Stage
  pub callback : Callback
  -- `c.dataChannel != nil`.
  pub has_channel : Bool
  pub client_ready : Bool

abbrev pub new_dial : Dial
new_dial = record { stage = asking; callback = unopened; has_channel = false; client_ready = false }

-- `c.dataChannel = dataChannel`.
unfoldable pub channel_dial : Dial → Dial
channel_dial d = record d { stage = attached; has_channel = true }

unfoldable pub store_dial : Dial → Dial
store_dial d = record d { stage = stored; client_ready = false }

unfoldable pub end_shake : Bool → Dial → Dial
end_shake succeeded d = record d {
  callback = over succeeded;
  client_ready = if succeeded then true else d.client_ready;
}

-- The channel opens only once the answer is set.
abbrev pub can_open : Stage → Bool
can_open asking = false
can_open failed = false
can_open _ = true

-- The moves that need no lock.
pub data Move (d : Dial) : Dial → Type 0 where
  answers : d.stage ≡ asking → Move d (record d { stage = answered })
  fails_early : d.stage ≡ asking → Move d (record d { stage = failed })
  opens : d.callback ≡ unopened → can_open d.stage ≡ true → Move d (record d { callback = shaking })
  opens_badly :
      d.callback ≡ unopened → can_open d.stage ≡ true → Move d (record d { callback = over false })
  -- An attached client has no handshake in its callback.
  opens_attached :
      d.callback ≡ unopened → can_open d.stage ≡ true → Move d (record d { callback = over true })
  shakes : d.callback ≡ shaking → d.has_channel ≡ true → Move d (end_shake true d)
  shakes_badly : d.callback ≡ shaking → Move d (end_shake false d)
  attaches : d.stage ≡ answered → Move d (channel_dial d)
  stores : d.stage ≡ attached → Move d (store_dial d)

pub record Process : Type 0 where
  -- The dial that holds `connectionsLock`.
  pub holder : Option ℕ
  pub dials : ℕ → Dial
  -- How many requests have had the lock.
  pub served : ℕ
  -- It has ended in a panic.
  pub crashed : Bool

abbrev pub update : (ℕ → Dial) → ℕ → Dial → ℕ → Dial
update f i d j = if i == j then d else f j

unfoldable pub enter_map : ℕ → Process → Process
enter_map i p = record p {
  holder = some i;
  dials = update p.dials i (record (p.dials i) { stage = waiting });
}

unfoldable pub return_dial : ℕ → Process → Process
return_dial i p = record p {
  holder = none;
  dials = update p.dials i (record (p.dials i) { stage = returned });
}

pub data ProcessMove (p : Process) : Process → Type 0 where
  moves :
      (i : ℕ) {d : Dial}
      → Move (p.dials i) d
      → ProcessMove p (record p { dials = update p.dials i d })
  crashes :
      (i : ℕ)
      → (p.dials i).callback ≡ shaking
      → (p.dials i).has_channel ≡ false
      → ProcessMove p (record p { crashed = true })
  enters : (i : ℕ) → (p.dials i).stage ≡ stored → p.holder ≡ none → ProcessMove p (enter_map i p)
  returns :
      (i : ℕ) (succeeded : Bool)
      → (p.dials i).stage ≡ waiting
      → (p.dials i).callback ≡ over succeeded
      → ProcessMove p (return_dial i p)
  -- A request takes the lock for its access to the map, and gives it back.
  serves : p.holder ≡ none → ProcessMove p (record p { served = suc p.served })

-- A step of a process that has not ended.
pub data ProcessStep (p : Process) : Process → Type 0 where
  runs : {q : Process} → p.crashed ≡ false → ProcessMove p q → ProcessStep p q

pub data ProcessRun (p : Process) : Process → Type 0 where
  here : ProcessRun p p
  next : {q r : Process} → ProcessRun p q → ProcessStep q r → ProcessRun p r

abbrev pub idle_process : Process
idle_process = record { holder = none; dials = λ i. new_dial; served = 0; crashed = false }
