-- ===== src/PortSpec/Listen.antt =====
-- What `ParseListenTargetPortFromString` makes of a target with and without a port index.
use whet.Base.{ℕ, ◌≤◌, ◌≡◌, [], ◌∷◌, ◌++◌, none, arith, Bytes, Lacks}
use whet.Base.Result.{ok, err}
use whet.Base.Int.{pos, max_int}
use whet.Strings.{split}
use whet.Strings.Split.{split-append, split_whole}
use whet.Decimal.{atoi, itoa_ℕ}
use whet.Decimal.RoundTrip.{atoi-itoa_ℕ}
use whet.PortSpec.{invalid_target_port_index, parse_listen}
use whet.PortSpec.Forward.{target_text, IsName, split_target, digits_lack, Lacks-append}

-- A text `name=host:port` with no dash in the name parses to its parts, with port index 0.
pub parse_listen_port :
    (name host : Bytes) (port : ℕ)
    → IsName name host
    → Lacks b'-' name
    → port ≤ max_int
    → parse_listen (target_text name host (itoa_ℕ port))
      ≡ ok (record {
        target_name = name;
        local_host = host;
        local_port = pos port;
        port_index = pos 0;
      })
unfolding parse_listen
parse_listen_port name host port hn hd hp =
    let (e, e') =
      split_target name host (itoa_ℕ port) hn (digits_lack b'=' port (omega arith))
        (digits_lack b':' port (omega arith)) in
    rw (e, e', split_whole b'-' name hd, atoi-itoa_ℕ port hp)

-- The target half `name-index`.
abbrev pub indexed : Bytes → Bytes → Bytes
indexed name index = name ++ b'-' ∷ index

-- The texts that stand in a listen target with an index hold no separator.
abbrev AreParts : Bytes → Bytes → Bytes → Bytes → Type 0
AreParts name index host ports =
    (Lacks b'=' name × Lacks b'=' index × Lacks b'=' host × Lacks b'=' ports)
    × (Lacks b':' host × Lacks b':' ports)
    × (Lacks b'-' name × Lacks b'-' index)

indexed-split :
    (name index host ports : Bytes)
    → AreParts name index host ports
    → (split b'=' (target_text (indexed name index) host ports)
        ≡ indexed name index ∷ (host ++ b':' ∷ ports) ∷ [])
      × (split b':' (host ++ b':' ∷ ports) ≡ host ∷ ports ∷ [])
indexed-split name index host ports ((en, ei, eh, ep), (ch, cp), d) =
    split_target (indexed name index) host ports
      (Lacks-append b'=' b'-' name index en (omega arith) ei, eh, ch) ep cp

-- A target `name-index` is refused, whatever the index, unless its name is a number.
pub parse_listen_refuses :
    (name index host ports : Bytes)
    → AreParts name index host ports
    → atoi name ≡ none
    → parse_listen (target_text (indexed name index) host ports) ≡ err invalid_target_port_index
unfolding parse_listen
parse_listen_refuses name index host ports h n =
    let (e, e') = indexed-split name index host ports h in
    let (dn, di) = h.2 in rw (e, e', split-append b'-' name index dn, split_whole b'-' index di, n)

-- The index of a target `name-index` is never read: any other index gives the same result.
parse_listen_unread :
    (name index other host ports : Bytes)
    → AreParts name index host ports
    → AreParts name other host ports
    → parse_listen (target_text (indexed name index) host ports)
      ≡ parse_listen (target_text (indexed name other) host ports)
unfolding parse_listen
parse_listen_unread name index other host ports h k =
    let (e, e') = indexed-split name index host ports h in
    let (f, f') = indexed-split name other host ports k in
    let (dn, di) = h.2 in
    let (dn', do') = k.2 in
    rw (
      e,
      f,
      e',
      split-append b'-' name index dn,
      split_whole b'-' index di,
      split-append b'-' name other dn,
      split_whole b'-' other do',
    )
