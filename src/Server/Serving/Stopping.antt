-- ===== src/Server/Serving/Stopping.antt =====
-- What `Close` stops.
use whet.Base.{
  List, ℕ, ◌≡◌, ◌≤◌, ◌&&◌, All, false, not, true, Bool-cases, ◌∷◌, ◌==◌, [], inl, refl, arith,
  ==_iff, inr, Bytes, Bool, some, ◌∙◌,
}
use whet.Server.Listeners.{WhetListener, close_listener, fine}
use whet.Server.Serving.{
  Service, close_tracked, close_server, close_all, is_in, start_with_listener, start_with_address,
  tracks, then_close, close_http, after_close, make_http, serve_on, serve_alone,
}

-- A listener's flag says whether its channel is open, as `NewWhetListener` and `Close` keep it.
abbrev pub Agrees : WhetListener → Type 0
Agrees l = l.isopen ≡ not l.is_closed

abbrev pub IsShut : WhetListener → Type 0
IsShut l = (l.isopen ≡ false) × (l.is_closed ≡ true)

-- No handler is blocked in a send to the listener.
abbrev pub IsIdle : WhetListener → Type 0
IsIdle l = l.senders ≡ []

-- No server of a number that is still to be made serves anything.
pub record IsFresh (s : Service) : Type 0 where
  pub unused : (h l : ℕ) → s.servers ≤ h → tracks h l s.serves ≡ false

close_listener-IsShut :
    (l : WhetListener)
    → Agrees l
    → IsIdle l
    → ((close_listener l).0 ≡ fine) × ((close_listener l).1 ≡ 0) × IsShut (close_listener l).2
unfolding close_listener
close_listener-IsShut l h i = elim (Bool-cases l.isopen) [
  | inl e ↦
      let o : l.is_closed ≡ false = ground (arith, e, h) in rw (e, o, i) (refl, refl, (refl, refl))
  | inr e ↦
      let o : l.is_closed ≡ true = ground (arith, e, h) in rw (e, o) (refl, refl, (refl, refl))
]

close_all-IsShut :
    (ls : List WhetListener)
    → All Agrees ls
    → All IsIdle ls
    → ((close_all ls).0 ≡ fine) × ((close_all ls).1 ≡ 0) × All IsShut (close_all ls).2
unfolding close_all after_close
close_all-IsShut [] h i = (refl, refl, tt)
close_all-IsShut (l ∷ ls) (h, hs) (i, is) =
    let (quiet, none_panics, shut) = close_listener-IsShut l h i in
    let (d, no_others, rest) = close_all-IsShut ls hs is in
    rw (quiet, none_panics) (d, ground (arith, no_others), (shut, rest))

close_tracked-is_in :
    (h l : ℕ) (serves : List (ℕ × ℕ)) (ls : List ℕ)
    → is_in l (close_tracked h serves ls) ≡ (is_in l ls && not (tracks h l serves))
unfolding close_tracked is_in
close_tracked-is_in h l serves [] = refl
close_tracked-is_in h l serves (m ∷ ls) = elim (Bool-cases (l == m)) [
  | inl e ↦
      let same = (==_iff l m).0 e in
      elim (Bool-cases (tracks h m serves)) [
        | inl t ↦
            let t' : tracks h l serves ≡ true = rw same t in
            ground (arith, t, t', e, close_tracked-is_in h l serves ls)
        | inr t ↦
            let t' : tracks h l serves ≡ false = rw same t in
            ground (arith, t, t', e, close_tracked-is_in h l serves ls)
      ]
  | inr e ↦ elim (Bool-cases (tracks h m serves)) [
    | inl t ↦ rw (t, e, close_tracked-is_in h l serves ls)
    | inr t ↦ rw (t, e, close_tracked-is_in h l serves ls)
  ]
]

close_server-IsShut :
    (s : Service) (h : ℕ)
    → All Agrees s.listeners
    → All IsIdle s.listeners
    → s.http ≡ some h
    → let (done, panics, after) = close_server s in
      (done ≡ fine)
      × (panics ≡ 0)
      × All IsShut after.listeners
      × ((l : ℕ) → is_in l after.accepting ≡ (is_in l s.accepting && not (tracks h l s.serves)))
unfolding close_server then_close close_http
close_server-IsShut s h agrees idle e =
    let (d, n, shut) = close_all-IsShut s.listeners agrees idle in
    rw (d, n, e) (refl, refl, shut, λ l. close_tracked-is_in h l s.serves s.accepting)

-- If no handler is blocked in a send to a listener, `Close` after a start returns without a panic of its
-- own or of another goroutine, and closes every listener of the server, and of the net listeners those
-- that `ws.Http` serves: the one that a start by address has opened, also without blocking, but that of a
-- start by listener only if it blocks.
pub close_stops :
    (s : Service) (l : ℕ) (addr : Bytes) (block : Bool)
    → IsFresh s
    → All Agrees s.listeners
    → All IsIdle s.listeners
    → is_in l s.accepting ≡ true
    → let (done, panics, after) = close_server (start_with_listener l addr block s).1 in
      let (done', panics', after') = close_server (start_with_address (some l) addr block s).1 in
      (done ≡ fine)
      × (panics ≡ 0)
      × All IsShut after.listeners
      × (is_in l after.accepting ≡ not block)
      × (done' ≡ fine)
      × (panics' ≡ 0)
      × All IsShut after'.listeners
      × (is_in l after'.accepting ≡ false)
unfolding start_with_listener start_with_address tracks is_in
close_stops s l addr true fresh agrees idle opened =
    let made = make_http (record s { addr = addr }) in
    let asked = make_http (record s { addr = addr; accepting = l ∷ s.accepting }) in
    let (d, n, shut, left) =
      close_server-IsShut (serve_on s.servers l made) s.servers agrees idle refl in
    let (d', n', shut', left') =
      close_server-IsShut (serve_on s.servers l asked) s.servers agrees idle refl in
    rw opened (d, n, shut, left l ∙ ground arith, d', n', shut', left' l ∙ ground arith)
close_stops s l addr false fresh agrees idle opened =
    let made = make_http (record s { addr = addr }) in
    let asked = make_http (record s { addr = addr; accepting = l ∷ s.accepting }) in
    let old = fresh.unused s.servers l (omega arith) in
    let (d, n, shut, left) = close_server-IsShut (serve_alone l made) s.servers agrees idle refl in
    let (d', n', shut', left') =
      close_server-IsShut (serve_on s.servers l asked) s.servers agrees idle refl in
    rw opened
      (d, n, shut, left l ∙ ground (arith, opened, old), d', n', shut', left' l ∙ ground arith)
