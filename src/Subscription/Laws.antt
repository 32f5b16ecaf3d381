-- ===== src/Subscription/Laws.antt =====
-- What the merge of a subscription's nodes leaves (`MergeSubscriptionNodes` of merge.go).
use rknno_vpn.Prelude.{◌≡◌, refl, String, true, not, ◌||◌, List, contains, CaseMap}
use rknno_vpn.Profile.Types.{Node, Subscription}
use rknno_vpn.Profile.Keys.{node_match_key}
use rknno_vpn.Subscription.Merge.{is_provider_node}

-- A node of the provider is one that it gives, or stale.
abbrev pub Current : CaseMap → String → List String → Node → Type 0
Current m provider seen node =
    (not (is_provider_node m provider node)
      || (contains seen (node_match_key m node) || node.stale))
    ≡ true

match_key_stale :
    (m : CaseMap) (node : Node)
    → node_match_key m (record node { stale = true }) ≡ node_match_key m node
unfolding node_match_key
match_key_stale m node = refl
