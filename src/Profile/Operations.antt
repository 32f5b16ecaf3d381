-- ===== src/Profile/Operations.antt =====
-- The edits of a profile (operations.go).
use rknno_vpn.Prelude.{
  String, Bool, false, not, ◌&&◌, ◌||◌, List, [], ◌∷◌, str_eq, is_empty, if◌then◌else◌,
}
use rknno_vpn.Profile.Types.{Node, Document}
use rknno_vpn.Profile.Keys.{first_live_id}

pub data ProfileError : Type 0 where
  active_node_missing id_required : ProfileError
  node_not_found : String → ProfileError

pub data Edited : Type 0 where
  edited : Document → Edited
  failed : ProfileError → Edited

-- Whether some node has this id and is not stale.
unfoldable pub has_live : List Node → String → Bool
has_live [] id = false
has_live (node ∷ nodes) id = (str_eq node.id id && not node.stale) || has_live nodes id

unfoldable pub set_active_node : Document → String → Edited
unfolding has_live
set_active_node current id =
    if has_live current.nodes id
    then edited (record current { active_node_id = id })
    else failed active_node_missing

unfoldable pub clear_active_node : Document → Document
clear_active_node current = record current { active_node_id = "" }

-- The first node of the same id gives way, or the new node comes last.
unfoldable pub put_node : List Node → Node → List Node
put_node [] node = node ∷ []
put_node (old ∷ nodes) node =
    let rest = put_node nodes node in if str_eq old.id node.id then node ∷ nodes else old ∷ rest

unfoldable pub upsert_node : Document → Node → Edited
unfolding put_node
upsert_node current node =
    if is_empty node.id
    then failed id_required
    else edited (record current {
      nodes = put_node current.nodes node;
      active_node_id =
          if is_empty current.active_node_id && not node.stale
          then node.id
          else current.active_node_id;
    })

unfoldable pub without_node : List Node → String → List Node
without_node [] id = []
without_node (node ∷ nodes) id =
    let rest = without_node nodes id in if str_eq node.id id then rest else node ∷ rest

unfoldable pub has_node : List Node → String → Bool
has_node [] id = false
has_node (node ∷ nodes) id = str_eq node.id id || has_node nodes id

unfoldable pub remove_node : Document → String → Edited
unfolding without_node has_node
remove_node current id =
    if is_empty id
    then failed id_required
    else if not (has_node current.nodes id)
    then failed (node_not_found id)
    else (let nodes = without_node current.nodes id in
        edited (record current {
          nodes = nodes;
          active_node_id =
              if str_eq current.active_node_id id
              then first_live_id nodes
              else current.active_node_id;
        }))

pub record RuntimeIntent : Type 0 where
  pub backend_kind : String
  pub fallback_policy : String
  pub active_profile_id : String

unfoldable pub apply_runtime_intent : Document → RuntimeIntent → Document
apply_runtime_intent current intent = record current {
  runtime = record {
    backend_kind =
        if is_empty intent.backend_kind then current.runtime.backend_kind else intent.backend_kind;
    fallback_policy =
        if is_empty intent.fallback_policy
        then current.runtime.fallback_policy
        else intent.fallback_policy;
  };
  active_node_id =
      if is_empty intent.active_profile_id
      then current.active_node_id
      else intent.active_profile_id;
}
