-- ===== src/FlowControl.antt =====
-- pkg/connection.go, pkg/server.go and pkg/client.go: how one sender keeps the data channel's buffer
-- bounded. After each send it reads `BufferedAmount()`, and above `MaxBufferedAmount` it blocks on
-- `<-c.sendMoreCh`. The channel has one place; pion's callback fills it without blocking when the
-- buffered amount falls from above the low threshold to it or below. The sender's loop may test the
-- amount once more before it sends again, as `createServerSideConnection` does.
pub mod Bounds
mod Tests
use whet.Base.{ℕ, ◌+◌, ◌-◌, ◌*◌, ◌≤◌, ◌≡◌, Bool, true, false, ◌&&◌, ltb, leb, if◌then◌else◌}

abbrev pub buffered_amount_low_threshold : ℕ
buffered_amount_low_threshold = 512 * 1024

abbrev pub max_buffered_amount : ℕ
max_buffered_amount = 1024 * 1024

abbrev pub max_buffer_size : ℕ
max_buffer_size = 16 * 1024

-- Free to go on; about to read the buffered amount after a send; blocked on the channel.
pub data Phase : Type 0 where
  idle checking waiting : Phase

pub record Flow : Type 0 where
  pub phase : Phase
  pub buffered : ℕ
  pub send_more : Bool

abbrev pub opened : Flow
opened = record { phase = idle; buffered = 0; send_more = false }

-- A write of `n` bytes to the data channel.
unfoldable pub send : ℕ → Flow → Flow
send n s = record s { phase = checking; buffered = s.buffered + n }

-- `if BufferedAmount() > MaxBufferedAmount { <-c.sendMoreCh }`, up to the receive.
unfoldable pub check : Flow → Flow
check s = record s { phase = if ltb max_buffered_amount s.buffered then waiting else idle }

-- The receive from the channel.
unfoldable pub wake : Flow → Flow
wake s = record s { phase = idle; send_more = false }

-- The transport takes `n` bytes; the callback runs where the amount crosses the threshold.
unfoldable pub release : ℕ → Flow → Flow
release n s = record s {
  buffered = s.buffered - n;
  send_more =
      if ltb buffered_amount_low_threshold s.buffered
        && leb (s.buffered - n) buffered_amount_low_threshold
      then true
      else s.send_more;
}

-- What can happen next. A message has at most `maxBufferSize` bytes.
pub data Step (s : Flow) : Flow → Type 0 where
  sends : (n : ℕ) → s.phase ≡ idle → n ≤ max_buffer_size → Step s (send n s)
  checks : s.phase ≡ checking → Step s (check s)
  tests : s.phase ≡ idle → Step s (check s)
  wakes : s.phase ≡ waiting → s.send_more ≡ true → Step s (wake s)
  releases : (n : ℕ) → n ≤ s.buffered → Step s (release n s)

pub data Reach (s : Flow) : Flow → Type 0 where
  here : Reach s s
  next : {t u : Flow} → Reach s t → Step t u → Reach s u
