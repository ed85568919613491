-- ===== src/Server/Serving/Tests.antt =====
-- Starting and closing a server at concrete values.
use whet.Base.{[], ◌∷◌, none, some, false, true, codes, All, ◌≡◌, refl}
use whet.Server.Listeners.{new_listener, fine}
use whet.Server.Serving.{
  Service, is_in, tracks, start_with_listener, start_with_address, close_server,
}
use whet.Server.Serving.Stopping.{IsFresh, IsShut, close_stops}

abbrev idle : Service
idle = record {
  http = none;
  addr = [];
  listeners = new_listener ∷ [];
  servers = 0;
  serves = [];
  accepting = 7 ∷ [];
}

idle-IsFresh : IsFresh idle
unfolding tracks
idle-IsFresh = record { unused = λ h l e. refl }

close_stops_example :
    let (done, panics, after) = close_server (start_with_listener 7 (codes "a") false idle).1 in
    let (done', panics', after') =
      close_server (start_with_address (some 7) (codes "a") false idle).1 in
    (done ≡ fine)
    × (panics ≡ 0)
    × All IsShut after.listeners
    × (is_in 7 after.accepting ≡ true)
    × (done' ≡ fine)
    × (panics' ≡ 0)
    × All IsShut after'.listeners
    × (is_in 7 after'.accepting ≡ false)
unfolding is_in
close_stops_example = close_stops idle 7 (codes "a") false idle-IsFresh (refl, tt) (refl, tt) refl
