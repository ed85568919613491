-- ===== src/Stream/Close.antt =====
-- pkg/webrtcconn.go, `Close`. The amounts that `BufferedAmount()` reads are a function of the round,
-- and the HTTP client's results are given; what is done to the outside is a list of effects.
use whet.Base.{
  ℕ, zero, suc, ◌+◌, Bool, true, false, List, [], ◌∷◌, ◌++◌, Option, none, some, Bytes, codes,
  bytes_eq, ltb, if◌then◌else◌,
}

pub record Drained : Type 0 where
  pub sleeps : ℕ
  pub gave_up : Bool

-- The waiting loop from the round `lcount` on; each round that finds data sleeps for 10 ms. `none`
-- means that the fuel ran out.
unfoldable pub drain : ℕ → (ℕ → ℕ) → ℕ → Option Drained
drain zero amount lcount = none
drain (suc fuel) amount lcount =
    let more = drain fuel amount (lcount + 1) in
    if ltb 0 (amount lcount)
    then (if ltb 100 (lcount + 1)
        then some (record { sleeps = lcount + 1; gave_up = true })
        else more)
    else some (record { sleeps = lcount; gave_up = false })

-- More rounds than the loop can make.
abbrev pub close_fuel : ℕ
close_fuel = 101

pub record Conn : Type 0 where
  pub closed : Bool
  pub resource_url : Bytes
  pub bearer_token : Bytes

-- A request is sent with the value of its Authorization header, empty if there is none.
pub data Effect : Type 0 where
  closed_peer : Effect
  sent_delete : Bytes → Bytes → Effect

pub data CloseError : Type 0 where
  bad_request failed_request : CloseError

-- The results of `http.NewRequest` and of `client.Do`.
pub record Client : Type 0 where
  pub builds : Bytes → Bool
  pub succeeds : Bytes → Bool

pub record Closed : Type 0 where
  pub error : Option CloseError
  pub effects : List Effect
  pub conn : Conn

abbrev pub authorization : Bytes → Bytes
authorization token = if bytes_eq token [] then [] else codes "Bearer " ++ token

-- What follows the waiting loop.
unfoldable pub tear_down : Client → Conn → Closed
tear_down client c =
    let quiet = closed_peer ∷ [] in
    let asked = closed_peer ∷ sent_delete c.resource_url (authorization c.bearer_token) ∷ [] in
    if bytes_eq c.resource_url []
    then record { error = none; effects = quiet; conn = c }
    else if client.builds c.resource_url
    then record {
      error = if client.succeeds c.resource_url then none else some failed_request;
      effects = asked;
      conn = c;
    }
    else record { error = some bad_request; effects = quiet; conn = c }

-- `Close`; `none` means that the loop did not end.
unfoldable pub close : Client → (ℕ → ℕ) → Conn → Option Closed
unfolding tear_down
close client amount c =
    if c.closed
    then some (record { error = none; effects = []; conn = c })
    else elim (drain close_fuel amount 0) [
      | none ↦ none
      | some d ↦ some (tear_down client (record c { closed = true }))
    ]
