-- ===== src/Client.antt =====
-- pkg/client.go: the texts that a client makes and takes apart. The calls that stand between them are
-- in `Dial`.
pub mod Urls
pub mod Dial
pub mod Tunnel
use whet.Base.{ℕ, suc, Bool, ◌∷◌, ◌++◌, none, some, Bytes, codes, if◌then◌else◌, drop, ◌||◌, ◌==◌}
use whet.Strings.{has_prefix, replace_all, last_index}

abbrev pub http_scheme : Bytes
http_scheme = codes "http://"

-- The server as it is given, or behind the scheme if it does not begin with "http".
abbrev with_scheme : Bytes → Bytes
with_scheme server = if has_prefix (codes "http") server then server else http_scheme ++ server

-- `HandleClientConnection`: the URL of the POST.
unfoldable pub handle_url : Bytes → Bytes → Bytes
handle_url server target =
    if has_prefix (codes "http") server
    then server ++ (codes "/whet/" ++ target)
    else http_scheme ++ (server ++ (codes "/whet/" ++ target))

-- `DialClientConnection`: the URL of the POST.
unfoldable pub dial_url : Bytes → Bytes → Bytes
dial_url server target =
    let path = replace_all b'.' b'/' target in
    if has_prefix (codes "http") server
    then server ++ (b'/' ∷ path)
    else http_scheme ++ (server ++ (b'/' ∷ path))

-- `path[strings.LastIndex(path, "/")+1:]`.
unfoldable pub connection_id : Bytes → Bytes
connection_id path = elim (last_index b'/' path) [ none ↦ path | some i ↦ drop (suc i) path ]

-- `resp.StatusCode != 201 && resp.StatusCode != 200`, negated.
unfoldable pub is_success : ℕ → Bool
is_success status = status == 201 || status == 200
