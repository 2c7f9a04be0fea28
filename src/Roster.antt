-- ===== src/Roster.antt =====
-- src/ControlMessage.cpp: who a client is, and CLIENTS_UPDATE, which tells all clients of each other.
-- A string is the list of its bytes; the map of the infos is a list in the order of their coming.
pub mod Identity
use naudio.Prelude.{
  ℕ, zero, suc, ◌+◌, ◌-◌, min, Bool, true, false, not, ◌||◌, ◌&&◌, Option, none, some, List, [],
  ◌∷◌, ◌++◌, length, take, ltb, leb, ◌==◌, if◌then◌else◌,
}
use naudio.Prelude.Int.{ℤ, pos, ltb_ℤ}
use naudio.Bytes.{put_u8, put_bytes, Reader, reader, remaining, set_pos, get_u8, read_bytes}
use naudio.Control.{ControlMessage, message, same_type, to_unsigned, clients_update}

pub record ClientInfo : Type 0 where
  pub callsign : List ℕ
  pub name : List ℕ
  pub location : List ℕ

abbrev pub is_blank : List ℕ → Bool
is_blank [] = true
is_blank (b ∷ bs) = false

unfoldable pub is_empty : ClientInfo → Bool
is_empty i = is_blank i.callsign && is_blank i.name && is_blank i.location

-- " (", ", " and ")".
abbrev opening : List ℕ
opening = 32 ∷ 40 ∷ []

abbrev comma : List ℕ
comma = 44 ∷ 32 ∷ []

abbrev closing : List ℕ
closing = 41 ∷ []

unfoldable pub details : ClientInfo → List ℕ
details i =
    if not (is_blank i.name) || not (is_blank i.location)
    then (opening
        ++ (if is_blank i.name then [] else i.name ++ (if is_blank i.location then [] else comma))
        ++ i.location
        ++ closing)
    else []

unfoldable pub display_string : ClientInfo → List ℕ
unfolding details
display_string i =
    if not (is_blank i.callsign)
    then i.callsign ++ details i
    else if not (is_blank i.name)
    then i.name ++ (if is_blank i.location then [] else opening ++ i.location ++ closing)
    else i.location

abbrev pub client_info_max_bytes : ℕ
client_info_max_bytes = 255

-- The field behind its length, which is at most what is left of the budget.
unfoldable pub put_field : List ℕ → List ℕ → ℕ → List ℕ
put_field w field budget =
    let len = min (length field) budget in put_bytes (put_u8 w len) (take len field)

unfoldable pub serialize_fields : ClientInfo → List ℕ
unfolding put_field
serialize_fields i =
    let budget = client_info_max_bytes - 3 in
    let w = put_field [] i.callsign budget in
    let budget = budget - min (length i.callsign) budget in
    let w = put_field w i.name budget in
    let budget = budget - min (length i.name) budget in put_field w i.location budget

unfoldable pub serialize_client_info : Option ClientInfo → List ℕ
unfolding is_empty serialize_fields
serialize_client_info none = []
serialize_client_info (some i) = if is_empty i then [] else serialize_fields i

unfoldable pub read_field : Reader → List ℕ × Reader
read_field r =
    let (len, r1) = get_u8 r in
    if ltb 0 len && leb len (remaining r1) then read_bytes r1 len else ([], r1)

unfoldable pub deserialize_client_info : Reader → Option ClientInfo
unfolding read_field
deserialize_client_info r =
    let (callsign, r1) = read_field r in
    let (name, r2) = read_field r1 in
    let (location, r3) = read_field r2 in
    if ltb (remaining r) 3
    then none
    else if ltb (remaining r1) 1
    then some (record { callsign = callsign; name = []; location = [] })
    else if ltb (remaining r2) 1
    then some (record { callsign = callsign; name = name; location = [] })
    else some (record { callsign = callsign; name = name; location = location })

abbrev pub InfoMap : Type 0
InfoMap = List (List ℕ × ClientInfo)

abbrev pub same_text : List ℕ → List ℕ → Bool
same_text [] [] = true
same_text [] (b ∷ bs) = false
same_text (a ∷ as') [] = false
same_text (a ∷ as') (b ∷ bs) = a == b && same_text as' bs

unfoldable pub find_info : List ℕ → InfoMap → Option ClientInfo
find_info id [] = none
find_info id ((k, i) ∷ infos) = if same_text k id then some i else find_info id infos

-- `clientInfoMap[clientId] = info`.
unfoldable pub put_info : List ℕ → ClientInfo → InfoMap → InfoMap
put_info id info [] = (id, info) ∷ []
put_info id info ((k, i) ∷ infos) =
    let rest = put_info id info infos in if same_text k id then (k, info) ∷ infos else (k, i) ∷ rest

pub record ClientsUpdateInfo : Type 0 where
  pub client_count : ℕ
  pub max_clients : ℕ
  pub tx_owner : Option (List ℕ)
  pub client_ids : List (List ℕ)
  pub client_info_map : InfoMap

unfoldable pub get_client_display_string : List ℕ → ClientsUpdateInfo → List ℕ
unfolding find_info is_empty display_string
get_client_display_string id u = elim (find_info id u.client_info_map) [
  | none ↦ id
  | some i ↦ if is_empty i then id else display_string i
]

unfoldable pub put_entry : List ℕ → InfoMap → List ℕ → List ℕ
unfolding find_info serialize_client_info
put_entry w infos id =
    let info = serialize_client_info (find_info id infos) in
    let w = put_u8 w (length id) in
    let w = put_bytes w id in let w = put_u8 w (length info) in put_bytes w info

unfoldable pub put_entries : List ℕ → InfoMap → List (List ℕ) → List ℕ
unfolding put_entry
put_entries w infos [] = w
put_entries w infos (id ∷ ids) = put_entries (put_entry w infos id) infos ids

-- `std::min(count, 255)` as a byte.
abbrev count_byte : ℤ → ℕ
count_byte z = to_unsigned 8 (if ltb_ℤ (pos 255) z then pos 255 else z)

-- A null map of infos is an empty one.
unfoldable pub clients_update_with_info : ℤ → ℤ → List ℕ → List (List ℕ) → InfoMap → ControlMessage
unfolding put_entries message to_unsigned
clients_update_with_info client_count max_clients tx_owner ids infos =
    let w = put_u8 [] (count_byte client_count) in
    let w = put_u8 w (count_byte max_clients) in
    let w = put_u8 w (length tx_owner) in
    let w = put_bytes w tx_owner in
    let w = put_u8 w (length ids) in message clients_update (put_entries w infos ids)

unfoldable pub clients_update_message : ℤ → ℤ → List ℕ → List (List ℕ) → ControlMessage
unfolding clients_update_with_info
clients_update_message client_count max_clients tx_owner ids =
    clients_update_with_info client_count max_clients tx_owner ids []

-- The info of an entry, if one is there, and the place behind it.
unfoldable pub read_info : List ℕ → Reader → ClientsUpdateInfo → ClientsUpdateInfo × Reader
unfolding deserialize_client_info put_info
read_info id r u =
    let (len, r1) = get_u8 r in
    let behind = set_pos r1 (r1.pos + len) in
    if ltb (remaining r) 1
    then (u, r)
    else if ltb 0 len && leb len (remaining r1)
    then elim (deserialize_client_info r1) [
      | none ↦ (u, behind)
      | some i ↦ (record u { client_info_map = put_info id i u.client_info_map }, behind)
    ]
    else (u, r1)

-- The loop over the entries, on the number of them that are left.
unfoldable pub read_entries : ℕ → Reader → ClientsUpdateInfo → ClientsUpdateInfo
unfolding read_info
read_entries zero r u = u
read_entries (suc left) r u =
    let (len, r1) = get_u8 r in
    let (id, r2) = read_bytes r1 len in
    let (u', r3) = read_info id r2 (record u { client_ids = u.client_ids ++ id ∷ [] }) in
    let rest = read_entries left r3 u' in
    if ltb (remaining r) 1 then u else if ltb (remaining r1) len then u else rest

unfoldable pub parse_clients_update : ControlMessage → Option ClientsUpdateInfo
unfolding read_entries
parse_clients_update m =
    let (count, r) = get_u8 (reader m.data_bytes) in
    let (most, r) = get_u8 r in
    let (owner_len, r) = get_u8 r in
    let owned = ltb 0 owner_len && leb owner_len (remaining r) in
    let (owner, behind) = read_bytes r owner_len in
    let r = if owned then behind else r in
    let u : ClientsUpdateInfo = record {
      client_count = count;
      max_clients = most;
      tx_owner = if owned then some owner else none;
      client_ids = [];
      client_info_map = [];
    } in
    let (number, r1) = get_u8 r in
    let entries = read_entries number r1 u in
    if not (same_type m.message_type clients_update) || ltb (length m.data_bytes) 4
    then none
    else some (if ltb (remaining r) 1 then u else entries)
