-- ===== src/Profile/Ids.antt =====
-- A new id for an imported node whose id is taken (profile.go). The search for a number that makes the
-- id free stops after as many rounds as there are ids in use.
use Prim.Native.Char.{code}
use Prim.Native.String.{String}
use rknno_vpn.Prelude.{
  ℕ, zero, suc, ◌+◌, ◌*◌, ◌%◌, List, [], ◌∷◌, itoa, decimal, is_empty, concat, join, trim_space,
  contains, ltb, length, if◌then◌else◌,
}
use rknno_vpn.Profile.Types.{Node}

unfoldable pub suffix_sum : ℕ → String → ℕ
suffix_sum sum String.[] = sum
suffix_sum sum (String.◌∷◌ c s) = suffix_sum ((sum * 31 + code c) % 100000) s

-- `%05d`, of a number below 100000.
unfoldable pub five_digits : ℕ → String
five_digits n =
    let zeros =
      if ltb n 10
      then "0000"
      else if ltb n 100
      then "000"
      else if ltb n 1000
      then "00"
      else if ltb n 10000
      then "0"
      else "" in
    concat zeros (decimal n)

unfoldable pub node_id_collision_suffix : Node → String
unfolding suffix_sum five_digits
node_id_collision_suffix node =
    let seed = join "|" (
      node.link
      ∷ node.name
      ∷ node.protocol
      ∷ node.server
      ∷ itoa node.port
      ∷ node.source.type
      ∷ node.source.provider_key
      ∷ node.outbound
      ∷ []) in
    five_digits (suffix_sum 0 seed)

-- The candidate of round `n`, counted from 2 as in the loop; before it comes the one without a number.
unfoldable pub candidate : String → String → ℕ → String
candidate base suffix n =
    concat base (concat "-" (concat suffix (if ltb n 2 then "" else concat "-" (decimal n))))

-- The loop from the candidate of number `n` on.
unfoldable pub first_free : ℕ → List String → (ℕ → String) → ℕ → String
first_free zero used name n = name n
first_free (suc fuel) used name n =
    let rest = first_free fuel used name (suc n) in if contains used (name n) then rest else name n

unfoldable pub unique_imported_node_id : Node → List String → String
unfolding node_id_collision_suffix candidate first_free
unique_imported_node_id node used =
    let id = trim_space node.id in
    let base = if is_empty id then "node" else id in
    if contains used base
    then first_free (length used) used (candidate base (node_id_collision_suffix node)) 1
    else base
