-- ===== src/Pump/Tests.antt =====
-- The pumps at concrete reads.
use whet.Pump.Attached.Mixed.{attached_never_ready}
use whet.Transfer.{send_raw}
use whet.Pump.Attached.{on_messages, attaches}
use whet.Pump.Upstream.{upstream, landings}
use whet.Pump.Tunnel.{reads, arrivals, tunnel}
use whet.Pump.{server_pump, closed, client_receive, ended, server_receive, client_pump}
use whet.Transfer.{Outcome, accepts}
use whet.Transfer.Progress.{IsLive}
use whet.FlowControl.{max_buffer_size}
use whet.Base.{
  ℕ, zero, suc, length, ◌≤◌, codes, List, All, Bytes, arith, ◌∷◌, true, [], ◌≡◌, false, refl,
}

abbrev live : List Outcome
live = accepts 2 ∷ accepts 1 ∷ accepts 9 ∷ accepts 1 ∷ []

abbrev chunks : List (Bytes × List Outcome)
chunks = (codes "abc", live) ∷ (codes "de", live) ∷ []

live-IsLive : All IsLive live
live-IsLive = (omega arith, (omega arith, (omega arith, (omega arith, tt))))

tunnel_example :
    (ms : List Bytes) × (server_pump true (reads chunks live) [] ≡ closed true ms)
    × (client_receive true (arrivals ms) [] ≡ ended (codes "abcde"))
tunnel_example =
    tunnel chunks live
      ((omega arith, live-IsLive, omega arith), ((omega arith, live-IsLive, omega arith), tt))
      live-IsLive (omega arith)

-- Writes that take one byte each.
abbrev single : ℕ → List Outcome
single zero = []
single (suc n) = accepts 1 ∷ single n

single-IsLive : (n : ℕ) → All IsLive (single n)
single-IsLive zero = tt
single-IsLive (suc n) = (omega arith, single-IsLive n)

length-single : (n : ℕ) → n ≤ length (single n)
length-single zero = omega arith
length-single (suc n) = omega (arith, length-single n)

upstream_example :
    (ms : List Bytes) × (client_pump true (reads chunks []) [] ≡ closed true ms)
    × (server_receive true (landings (λ i. single max_buffer_size) 0 ms) [] ≡ ended (codes "abcde"))
upstream_example =
    upstream chunks [] (λ i. single max_buffer_size)
      ((omega arith, live-IsLive, omega arith), ((omega arith, live-IsLive, omega arith), tt))
      (λ k. single-IsLive max_buffer_size) (λ k. length-single max_buffer_size)

-- A write takes five bytes, and another one the rest.
abbrev signal_outs : List Outcome
signal_outs = accepts 5 ∷ accepts 20 ∷ []

attached_never_ready_example :
    let a = on_messages ((codes "READY", true) ∷ (codes "_TO_TRANSMIT", true) ∷ []) (attaches 1) in
    (a.client_ready ≡ false)
    × (a.wait_group ≡ 1)
    × (a.sent ≡ [])
    × (a.written ≡ [])
    × (a.conn_closed ≡ true)
unfolding send_raw
attached_never_ready_example =
    attached_never_ready signal_outs (codes "READY" ∷ codes "_TO_TRANSMIT" ∷ [])
      ((codes "READY", true) ∷ (codes "_TO_TRANSMIT", true) ∷ []) 1 refl refl
