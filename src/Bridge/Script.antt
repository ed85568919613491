-- ===== src/Bridge/Script.antt =====
-- wasm/main.go: the functions that a script calls. Each returns a promise, which the goroutine of the
-- call settles later.
use whet.Base.{ℕ, Bytes, List, Option, some, none}
use whet.Base.Int.{ℤ, pos, negsuc}
use whet.Transfer.{Outcome, Sending, done, failed, blocked}
use whet.Stream.{ReadOutcome, ReadResult, copied, fails_with, panics, read, write}
use whet.Stream.Close.{Client, close, Closed, CloseError}
use whet.Stream.Made.{WebrtcConn, Dialled, dials, dial_fails, dial_blocks}

-- A promise that is settled, one that never is, or a goroutine whose panic ends the program.
pub data Promise (A : Type 0) : Type 0 where
  resolves : A → Promise A
  rejects : Promise A
  pending : Promise A
  crashes : Promise A

-- `createWhetConnection`.
unfoldable pub create_connection : Dialled → Promise WebrtcConn
create_connection (dials c) = resolves c
create_connection (dial_fails e) = rejects
create_connection dial_blocks = pending

unfoldable pub settle_write : ℕ → Sending → Promise ℕ
settle_write n (done ms) = resolves n
settle_write n (failed ms) = rejects
settle_write n (blocked ms) = pending

-- `write`.
unfoldable pub js_write : WebrtcConn → Bytes → List Outcome → Promise ℕ
unfolding settle_write
js_write c bytes outs = let w = write c.stream.detached bytes outs in settle_write w.count w.sending

unfoldable pub settle_read : ReadResult → Promise Bytes
settle_read (copied bytes) = resolves bytes
settle_read (fails_with e) = rejects
settle_read panics = crashes

-- `read`; `make` panics on a negative size.
unfoldable pub js_read : ℤ → ReadOutcome → WebrtcConn → Promise Bytes × WebrtcConn
unfolding settle_read
js_read (negsuc n) o c = (crashes, c)
js_read (pos n) o c = let (r, s) = read o n c.stream in (settle_read r, record c { stream = s })

settled : Option CloseError → Promise (Unit {0})
settled none = resolves tt
settled (some e) = rejects

settle_close : Option Closed → WebrtcConn → Promise (Unit {0}) × WebrtcConn
unfolding settled
settle_close none c = (pending, c)
settle_close (some r) c = (settled r.error, record c { conn = r.conn })

-- `close`.
unfoldable pub js_close : Client → (ℕ → ℕ) → WebrtcConn → Promise (Unit {0}) × WebrtcConn
unfolding settle_close
js_close client amount c = settle_close (close client amount c.conn) c
