-- ===== src/Mirror/Tests.antt =====
-- The mirror server at concrete requests.
use whet.Transfer.{accepts, fails}
use whet.Mirror.Accepting.Clients.{Guest}
use whet.Base.{codes, ◌∷◌, []}

abbrev first : Guest
first = record { pieces = codes "ab" ∷ codes "c" ∷ []; outs = accepts 2 ∷ accepts 5 ∷ [] }

abbrev second : Guest
second = record { pieces = codes "xy" ∷ []; outs = fails ∷ [] }
