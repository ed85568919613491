-- ===== src/Server/Offering/Offered.antt =====
-- What a listener is offered.
use whet.Server.Offering.{held, here, waiting}
use whet.Base.{◌≡◌, Bool, true, false, refl, arith}
use whet.Server.Offering.{
  Opener, Offering, shake_succeeds, OfferReach, shake_fails, channel_opens, OfferStep, next,
  succeeds, shaking, fails, fails_again, proceeds, lists, misses, accepts, deletes,
}
use whet.Server.Session.Kept.{has_succeeded, is_past_wait}

abbrev pub is_held : Opener → Bool
is_held held = true
is_held _ = false

pub record IsOffer (s : Offering) : Type 0 where
  pub ready : s.client_ready ≡ has_succeeded s.receiver
  pub group : s.shaken ≡ s.client_ready
  pub unsignalled : s.conn_signalled ≡ false
  pub stays : is_past_wait s.receiver ≡ false
  pub waits : s.shaken ≡ false → is_held s.opener ≡ true
  pub unclosed : s.client_ready ≡ true → s.closed ≡ false
  pub unfailed : s.receiver ≡ shaking → s.closed ≡ false

OfferStep-IsOffer : {s t : Offering} → OfferStep s t → IsOffer s → IsOffer t
unfolding shake_succeeds shake_fails
OfferStep-IsOffer (succeeds e) k = ground (arith, k.ready, k.group, k.waits, k.unfailed)
OfferStep-IsOffer (fails e) k = ground (arith, k.ready, k.group, k.waits)
OfferStep-IsOffer (fails_again e) k = ground (arith, k.ready, k.group, k.waits)
OfferStep-IsOffer (proceeds b e c) k = ground arith
OfferStep-IsOffer (lists e f) k = ground arith
OfferStep-IsOffer (misses e f) k = ground arith
OfferStep-IsOffer (accepts e) k = ground arith
OfferStep-IsOffer (deletes e) k = ground arith

OfferReach-IsOffer : {s t : Offering} → OfferReach s t → IsOffer s → IsOffer t
OfferReach-IsOffer here k = k
OfferReach-IsOffer (next r st) k = OfferStep-IsOffer st (OfferReach-IsOffer r k)

opens-IsOffer : IsOffer channel_opens
opens-IsOffer = record {
  ready = refl;
  group = refl;
  unsignalled = refl;
  stays = refl;
  waits = λ e. refl;
  unclosed = λ e. refl;
  unfailed = λ e. refl;
}

-- However the goroutines of a channel to a listener and the DELETE interleave, when the listener has
-- been looked up the handshake has succeeded, the connection is not marked closed, and the goroutine of
-- the handshake has not returned: it is still in its wait for a socket.
pub offered_after_handshake :
    (s : Offering)
    → OfferReach channel_opens s
    → is_held s.opener ≡ false
    → (s.client_ready ≡ true) × (s.closed ≡ false) × (s.receiver ≡ waiting true)
offered_after_handshake s r h =
    let k = OfferReach-IsOffer r opens-IsOffer in
    let ready : s.client_ready ≡ true = ground (arith, h, k.waits, k.group) in
    (ready, k.unclosed ready, ground (arith, ready, k.ready, k.stays))
