-- ===== src/Profile/Keys.antt =====
-- The key by which a node is recognised, and the search for a node (profile.go).
use rknno_vpn.Prelude.{
  String, not, ◌||◌, List, [], ◌∷◌, Option, none, some, is_zero_ℤ, itoa, str_eq, is_empty, concat,
  join, trim_space, to_upper, to_lower, CaseMap, if◌then◌else◌,
}
use rknno_vpn.Profile.Types.{Node}

-- `firstNonEmpty` of this package, which trims.
unfoldable pub first_non_empty_trimmed : List String → String
first_non_empty_trimmed [] = ""
first_non_empty_trimmed (value ∷ values) =
    let rest = first_non_empty_trimmed values in
    if is_empty (trim_space value) then rest else trim_space value

unfoldable pub normalize_protocol : CaseMap → String → String
normalize_protocol m value =
    let lower = to_lower m (trim_space value) in
    if str_eq lower "ss" || str_eq lower "shadowsocks"
    then "shadowsocks"
    else if str_eq lower "socks4" || str_eq lower "socks4a" || str_eq lower "socks5"
    then "socks"
    else if str_eq lower "hy2"
    then "hysteria2"
    else if str_eq lower "wg"
    then "wireguard"
    else lower

-- The end of `NodeMatchKey`, without a link.
unfoldable pub key_without_link : CaseMap → String → Node → String
key_without_link m scope node =
    let id = trim_space node.id in
    let server = to_lower m (trim_space node.server) in
    if not (is_empty id)
    then concat scope (concat "|id:" id)
    else if is_empty server || is_zero_ℤ node.port
    then ""
    else join "|" (scope ∷ normalize_protocol m node.protocol ∷ server ∷ itoa node.port ∷ [])

unfoldable pub node_match_key : CaseMap → Node → String
unfolding key_without_link
node_match_key m node =
    let given = to_upper m (trim_space node.source.type) in
    let type = if is_empty given then "MANUAL" else given in
    if str_eq type "SUBSCRIPTION"
    then (let scope = concat type (concat ":" (trim_space node.source.provider_key)) in
        let link = trim_space node.link in
        if is_empty link
        then key_without_link m scope node
        else concat scope (concat "|link:" link))
    else key_without_link m type node

-- `nodeByID`: the first one.
unfoldable pub node_by_id : List Node → String → Option Node
node_by_id [] id = none
node_by_id (node ∷ nodes) id = if str_eq node.id id then some node else node_by_id nodes id

-- The id of the first node that is not stale, or none: the loops of `MergeNodes`, `Normalize` and
-- `RemoveNode`.
unfoldable pub first_live_id : List Node → String
first_live_id [] = ""
first_live_id (node ∷ nodes) = if node.stale then first_live_id nodes else node.id
