-- ===== src/Client/Urls.antt =====
-- The client's URLs against what the server makes of them.
use whet.Server.Targets.{select_name}
use whet.Base.Int.{pos}
use whet.Base.Result.{ok}
use whet.Strings.Affix.{last_index-append, drop_last, replace_all-Lacks}
use whet.Base.Assoc.{lookup}
use whet.Server.Select.{whet_path, select_target}
use whet.Base.{Lacks, ◌++◌, codes, ◌≡◌, false, ◌∷◌, sym, append_assoc, some}
use whet.PortSpec.{ForwardTargetPort}
use whet.Server.State.{WhetServer}
use whet.Client.{http_scheme, handle_url, dial_url, connection_id, Bytes, replace_all, has_prefix}

-- Dialling `whet.name` asks for the URL that a port forward of `name` asks for.
dial_url-handle_url :
    (server name : Bytes)
    → Lacks b'.' name
    → dial_url server (codes "whet." ++ name) ≡ handle_url server name
unfolding dial_url handle_url
dial_url-handle_url server name h =
    unfold whet.Strings.replace_all in rw (replace_all-Lacks b'.' b'/' name h)

-- The path of a port forward's URL, behind the server's address, selects the target that the server has
-- registered under the name, at offset 0.
pub handle_url-selects :
    (s : WhetServer) (server name : Bytes) (t : ForwardTargetPort)
    → has_prefix (codes "http") server ≡ false
    → Lacks b'-' name
    → lookup name s.targets ≡ some t
    → (path : Bytes) × (handle_url server name ≡ http_scheme ++ (server ++ path))
      × (select_target s path ≡ ok (record { name = name; target = t; offset = pos 0 }))
unfolding handle_url
handle_url-selects s server name t h d found =
    (whet_path ++ name, rw h, select_name s name t d found)

-- The ID that the client takes from a location that the server has sent is the UUID under which the
-- server has registered the connection.
pub connection_id-location :
    (before uuid : Bytes) → Lacks b'/' uuid → connection_id (before ++ (whet_path ++ uuid)) ≡ uuid
unfolding connection_id
connection_id-location before uuid h = rw (regroup before uuid) (
    rw (last_index-append b'/' (before ++ codes "/whet") uuid h, connection_id)
      (drop_last b'/' (before ++ codes "/whet") uuid))
  where
    regroup : (p u : Bytes) → p ++ (whet_path ++ u) ≡ (p ++ codes "/whet") ++ b'/' ∷ u
    regroup p u = sym (append_assoc p (codes "/whet") (b'/' ∷ u))
