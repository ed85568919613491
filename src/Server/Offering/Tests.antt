-- ===== src/Server/Offering/Tests.antt =====
-- A connection that a listener accepts, and that a DELETE takes from the map.
use whet.Server.Offering.Offered.{offered_after_handshake}
use whet.Base.{◌≡◌, true, false, refl}
use whet.Server.Offering.{
  accepted, here, next, succeeds, lists, accepts, deletes, shake_succeeds, Offering, OfferReach,
  channel_opens,
}
use whet.Server.Session.{waiting}

abbrev taken : Offering
taken = record {
  receiver = waiting true;
  opener = accepted;
  shaken = true;
  conn_signalled = false;
  client_ready = true;
  closed = false;
  registered = false;
}

taken_reached : OfferReach channel_opens taken
unfolding shake_succeeds
taken_reached =
    next (next (next (next here (succeeds refl)) (lists refl refl)) (accepts refl)) (deletes refl)

offered_after_handshake_example :
    (taken.client_ready ≡ true) × (taken.closed ≡ false) × (taken.receiver ≡ waiting true)
offered_after_handshake_example = offered_after_handshake taken taken_reached refl
