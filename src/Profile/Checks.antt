-- ===== src/Profile/Checks.antt =====
-- What each check of a profile leaves, where it accepts (`Normalize` of profile.go).
use rknno_vpn.Prelude.{
  ℕ, suc, ◌≡◌, ◌≢◌, refl, ◌⊎◌, inl, inr, String, true, false, not, ◌&&◌, ◌||◌, List, [], ◌∷◌, arith,
  contains, distinct, str_eq, eq_iff, is_empty, trim_space, trim_space_idem, Bool-cases, All,
}
use rknno_vpn.Profile.Types.{Node, Subscription, Document, Warning}
use rknno_vpn.Profile.Operations.{has_live}
use rknno_vpn.Profile.Normalize.{
  World, ok, valid_port, above, or_number, check_header, normalize_node, normalize_nodes,
  trim_subscriptions, provider_keys, check_providers, repair_active,
}
use rknno_vpn.Profile.Identity.{ids}
use rknno_vpn.Profile.Active.{Settled, first_live_id-Settled}
use rknno_vpn.Profile.Providers.{Complete}
use rknno_vpn.Profile.Valid.{ValidNode, refuse_if_inv, bind_inv, ok_inj, normalize_node_inv}

-- The nodes that the loop accepts, with ids that are new to it.
pub record Fresh (w : World) (seen : List String) (nodes : List Node) : Type 0 where
  pub valid : All (ValidNode w) nodes
  pub apart : distinct (ids nodes) ≡ true
  pub unseen : (id : String) → contains seen id ≡ true → contains (ids nodes) id ≡ false

pub normalize_nodes_inv :
    (w : World) (given : List Node) (i : ℕ) (seen : List String) (nodes : List Node)
    → normalize_nodes w i seen given ≡ ok nodes
    → Fresh w seen nodes
unfolding normalize_nodes distinct contains
normalize_nodes_inv w [] i seen nodes h =
    rw (ok_inj _ _ h) (record { valid = tt; apart = refl; unseen = λ id e. refl })
normalize_nodes_inv w (given ∷ rest) i seen nodes h =
    let (next, a, h1) = bind_inv (normalize_node w i seen given) _ h in
    let (others, b, h2) = bind_inv (normalize_nodes w (suc i) (next.id ∷ seen) rest) _ h1 in
    let (valid, new) = normalize_node_inv w i seen given next a in
    let f = normalize_nodes_inv w rest (suc i) (next.id ∷ seen) others b in
    rw (ok_inj _ _ h2) (record {
      valid = (valid, f.valid);
      apart = (let u = f.unseen next.id in ground (arith, f.apart, u, eq_iff next.id next.id));
      unseen = λ id e. (let u = f.unseen id in ground (arith, e, new, u, eq_iff next.id id));
    })

pub trim_subscriptions_inv :
    (given : List Subscription) (i : ℕ) (subs : List Subscription)
    → trim_subscriptions i given ≡ ok subs
    → All Complete subs
unfolding trim_subscriptions
trim_subscriptions_inv [] i subs h = rw (ok_inj _ _ h) tt
trim_subscriptions_inv (given ∷ rest) i subs h =
    let (key, h1) = refuse_if_inv (is_empty (trim_space given.provider_key)) _ _ h in
    let (url, h2) = refuse_if_inv (is_empty (trim_space given.url)) _ _ h1 in
    let (others, b, h3) = bind_inv (trim_subscriptions (suc i) rest) _ h2 in
    rw (ok_inj _ _ h3) (
      (trim_space_idem given.provider_key, key, trim_space_idem given.url, url),
      trim_subscriptions_inv rest (suc i) others b,
    )

-- A node of a subscription has its provider among these keys.
abbrev pub Provided : List String → Node → Type 0
Provided keys node =
    (not (str_eq node.source.type "SUBSCRIPTION") || contains keys node.source.provider_key) ≡ true

pub check_providers_inv :
    (nodes : List Node) (i : ℕ) (keys kept : List String) {u : Unit {0}}
    → ((key : String) → contains kept key ≡ contains keys key)
    → check_providers i keys nodes ≡ ok u
    → All (Provided kept) nodes
unfolding check_providers
check_providers_inv [] i keys kept same h = tt
check_providers_inv (node ∷ nodes) i keys kept same h =
    let (there, h1) =
      refuse_if_inv
        (str_eq node.source.type "SUBSCRIPTION" && not (contains keys node.source.provider_key)) _ _
        h in
    let s = same node.source.provider_key in
    (ground (arith, there, s), check_providers_inv nodes (suc i) keys kept same h1)

-- What the checks make of the active node.
abbrev pub Repaired : String → Document → List Warning → Type 0
Repaired given doc warnings =
    ((doc.active_node_id ≡ given)
      × (warnings ≡ [])
      × ((given ≡ "") ⊎ (has_live doc.nodes given ≡ true)))
    ⊎ ((given ≢ "")
        × (has_live doc.nodes given ≡ false)
        × Settled doc.nodes doc.active_node_id
        × ((warning : Warning) × (warnings ≡ warning ∷ [])))

empty_eq : (s : String) → is_empty s ≡ true → s ≡ ""
empty_eq String.[] h = refl
empty_eq (String.◌∷◌ c s) h = absurd (cc h)

pub repair_active-Repaired :
    (w : World) (doc : Document)
    → let (next, warnings) = repair_active w doc in
      Repaired doc.active_node_id next warnings × (next.nodes ≡ doc.nodes)
unfolding repair_active
repair_active-Repaired w doc = elim (Bool-cases (is_empty doc.active_node_id)) [
  | inl none_given ↦ rw none_given (inl (refl, refl, inl (empty_eq _ none_given)), refl)
  | inr given ↦ elim (Bool-cases (has_live doc.nodes doc.active_node_id)) [
    | inl live ↦ rw (given, live) (inl (refl, refl, inr live), refl)
    | inr dead ↦
        rw (given, dead)
          (inr ((λ e. cc (given, e)), dead, first_live_id-Settled doc.nodes, (_, refl)), refl)
  ]
]

pub repair_active_keeps :
    (w : World) (doc : Document)
    → let next = (repair_active w doc).0 in
      (next.inbounds ≡ doc.inbounds) × (next.schema_version ≡ doc.schema_version)
unfolding repair_active
repair_active_keeps w doc =
    elim (Bool-cases
      (not (is_empty doc.active_node_id) && not (has_live doc.nodes doc.active_node_id))) [
        | inl e ↦ rw e (refl, refl)
        | inr e ↦ rw e (refl, refl)
      ]

pub record Header (given doc : Document) : Type 0 where
  pub schema : above 2 doc.schema_version ≡ false
  pub no_lan : doc.inbounds.allow_lan ≡ false
  pub socks : valid_port true doc.inbounds.socks_port ≡ true
  pub http : valid_port true doc.inbounds.http_port ≡ true
  pub active : doc.active_node_id ≡ given.active_node_id

pub check_header_inv : (given doc : Document) → check_header given ≡ ok doc → Header given doc
unfolding check_header
check_header_inv given doc h =
    let (schema, h1) = refuse_if_inv (above 2 (or_number given.schema_version 2)) _ _ h in
    let (no_lan, h2) = refuse_if_inv given.inbounds.allow_lan _ _ h1 in
    let (socks, h3) = refuse_if_inv (not (valid_port true given.inbounds.socks_port)) _ _ h2 in
    let (http, h4) = refuse_if_inv (not (valid_port true given.inbounds.http_port)) _ _ h3 in
    rw (ok_inj _ _ h4) (record {
      schema = schema;
      no_lan = no_lan;
      socks = ground (arith, socks);
      http = ground (arith, http);
      active = refl;
    })

pub record ValidDocument (w : World) (doc : Document) : Type 0 where
  pub schema : above 2 doc.schema_version ≡ false
  pub no_lan : doc.inbounds.allow_lan ≡ false
  pub socks : valid_port true doc.inbounds.socks_port ≡ true
  pub http : valid_port true doc.inbounds.http_port ≡ true
  pub nodes : All (ValidNode w) doc.nodes
  pub apart : distinct (ids doc.nodes) ≡ true
  pub provided : All (Provided (provider_keys doc.subscriptions)) doc.nodes
