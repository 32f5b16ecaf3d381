-- ===== src/Profile/Valid.antt =====
-- What the checks of a profile let through (`Normalize` of profile.go).
use rknno_vpn.Prelude.{
  ℕ, ◌+◌, ◌≡◌, refl, ◌⊎◌, inl, inr, String, Bool, true, false, not, ◌&&◌, ◌||◌, List, arith,
  in_range, contains, str_eq, eq_iff, is_empty, trim_space, trim_space_idem, if◌then◌else◌,
  Bool-cases,
}
use rknno_vpn.Profile.Types.{Node}
use rknno_vpn.Profile.Endpoint.{is_valid_android_package_name, is_disallowed_subscription_endpoint}
use rknno_vpn.Profile.Normalize.{
  World, NormalizeError, Checked, ok, err, ◌>>=◌, ◌>>◌, refuse_if, valid_port, node_id, clean_node,
  check_source, normalize_node,
}
use rknno_vpn.Profile.Identity.{Named}
use rknno_vpn.Profile.Numbers.{trim_space-node, is_empty-node}

pub refuse_if_inv {ℓ} :
    {A : Type ℓ} (b : Bool) (e : NormalizeError) (k : Checked A) {x : A}
    → (refuse_if b e >> k) ≡ ok x
    → (b ≡ false) × (k ≡ ok x)
refuse_if_inv true e k h = absurd (cc h)
refuse_if_inv false e k h = (refl, h)

pub ok_inj {ℓ} : {A : Type ℓ} (x y : A) → ok x ≡ ok y → y ≡ x
ok_inj x y h = cc h

pub bind_inv {ℓ κ} :
    {A : Type ℓ} {B : Type κ} (m : Checked A) (f : A → Checked B) {b : B}
    → (m >>= f) ≡ ok b
    → (a : A) × (m ≡ ok a) × (f a ≡ ok b)
bind_inv (ok a) f h = (a, refl, h)
bind_inv (err e) f h = absurd (cc h)

-- The source of a node: entered by hand and not stale, or of a subscription with a provider's key and a
-- public server.
abbrev pub Sourced : World → Node → Type 0
Sourced w node =
    ((node.source.type ≡ "MANUAL") × (node.stale ≡ false))
    ⊎ ((node.source.type ≡ "SUBSCRIPTION")
        × (is_empty node.source.provider_key ≡ false)
        × (is_disallowed_subscription_endpoint w.net w.letters node.server ≡ false))

pub record ValidNode (w : World) (node : Node) : Type 0 where
  pub named : Named node
  pub port : in_range 1 65535 node.port ≡ true
  pub owner :
      (is_empty node.owner_package || is_valid_android_package_name node.owner_package) ≡ true
  pub outbound : (str_eq node.outbound "{}" || w.json_valid node.outbound) ≡ true
  pub source : Sourced w node

-- The part of a node that the check of its source leaves.
record SameBut (node next : Node) : Type 0 where
  pub id : next.id ≡ node.id
  pub port : next.port ≡ node.port
  pub owner : next.owner_package ≡ node.owner_package
  pub outbound : next.outbound ≡ node.outbound

check_source_inv :
    (w : World) (i : ℕ) (node next : Node)
    → check_source w i node ≡ ok next
    → Sourced w next × SameBut node next
unfolding check_source
check_source_inv w i node next h = elim (Bool-cases (str_eq node.source.type "MANUAL")) [
  | inl manual ↦
      let (fresh, q) = refuse_if_inv node.stale _ _ (rw manual at h) in
      rw (ok_inj _ _ q) (
        inl ((eq_iff _ _).0 manual, fresh),
        record { id = refl; port = refl; owner = refl; outbound = refl },
      )
  | inr other ↦ elim (Bool-cases (str_eq node.source.type "SUBSCRIPTION")) [
    | inr unknown ↦ absurd (let f = rw (other, unknown) at h in cc f)
    | inl sub ↦
        let (keyed, q) =
          refuse_if_inv (is_empty (trim_space node.source.provider_key)) _ _
            (rw (other, sub) at h) in
        let (public, r) =
          refuse_if_inv (is_disallowed_subscription_endpoint w.net w.letters node.server) _ _ q in
        rw (ok_inj _ _ r) (
          inr ((eq_iff _ _).0 sub, keyed, public),
          record { id = refl; port = refl; owner = refl; outbound = refl },
        )
  ]
]

node_id-Named :
    (i : ℕ) (node : Node)
    → (trim_space (node_id i node) ≡ node_id i node) × (is_empty (node_id i node) ≡ false)
node_id-Named i node = elim (Bool-cases (is_empty (trim_space node.id))) [
  | inl e ↦ rw e (trim_space-node (i + 1), is_empty-node (i + 1))
  | inr e ↦ rw e (trim_space_idem node.id, e)
]

outbound_lem :
    (w : World) (node : Node)
    → (not (is_empty (trim_space node.outbound)) && not (w.json_valid node.outbound)) ≡ false
    → let out = if is_empty (trim_space node.outbound) then "{}" else node.outbound in
      (str_eq out "{}" || w.json_valid out) ≡ true
outbound_lem w node h = elim (Bool-cases (is_empty (trim_space node.outbound))) [
  | inl e ↦ rw e refl
  | inr e ↦ rw e (let v = rw e at h in ground (arith, v))
]

pub normalize_node_inv :
    (w : World) (i : ℕ) (seen : List String) (given next : Node)
    → normalize_node w i seen given ≡ ok next
    → ValidNode w next × (contains seen next.id ≡ false)
unfolding normalize_node clean_node
normalize_node_inv w i seen given next h =
    let node = clean_node w i given in
    let (unused, h1) = refuse_if_inv (contains seen node.id) _ _ h in
    let (owned, h2) =
      refuse_if_inv
        (not (is_empty node.owner_package)
          && not (is_valid_android_package_name node.owner_package))
        _ _ h1 in
    let (json, h3) =
      refuse_if_inv
        (not (is_empty (trim_space given.outbound)) && not (w.json_valid given.outbound)) _ _ h2 in
    let (port, h4) = refuse_if_inv (not (valid_port false node.port)) _ _ h3 in
    let (typed, h5) = refuse_if_inv (is_empty node.source.type) _ _ h4 in
    let (source, same) = check_source_inv w i node next h5 in
    (
      record {
        named = rw same.id (node_id-Named i given);
        port = rw same.port (ground (arith, port));
        owner = rw same.owner (ground (arith, owned));
        outbound = rw same.outbound (outbound_lem w given json);
        source = source;
      },
      rw same.id unused,
    )
