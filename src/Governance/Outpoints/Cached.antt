-- ===== src/Governance/Outpoints/Cached.antt =====
-- What the maps say of an outpoint, and for how long.
use dashscan.Prelude.{
  Option-cases, inl, inr, ℕ, ◌+◌, ◌≤◌, ◌<◌, ◌≡◌, refl, ap, ◌∙◌, String, Option, none, some, List,
  [], ◌∷◌, arith, str_eq, if◌then◌else◌,
}
use dashscan.Prelude.Maps.{lookup, lookup-insert}
use dashscan.Cache
use dashscan.Cache.{Redis, Codec}
use dashscan.Cache.Laws.{get-set}
use dashscan.Governance.Outpoints.{
  ProTxEntry, OutpointMaps, outpoint_of, weight_of, build_maps, no_maps, or_fetch, fetch_maps,
  get_protx_outpoint, protx_outpoint_map_life_time,
}

-- The last entry of the list that has an outpoint.
unfoldable pub last_entry : String → List ProTxEntry → Option ProTxEntry → Option ProTxEntry
last_entry outpoint [] last = last
last_entry outpoint (entry ∷ list) last =
    last_entry outpoint list (if str_eq (outpoint_of entry) outpoint then some entry else last)

abbrev pub hash_in : Option ProTxEntry → Option String
hash_in none = none
hash_in (some entry) = some entry.pro_tx_hash

-- An Evo masternode votes four times, and any other once.
abbrev pub votes_as : Option String → ℕ
votes_as none = 1
votes_as (some type) = if str_eq type "Evo" then 4 else 1

abbrev pub weight_in : Option ProTxEntry → Option ℕ
weight_in none = none
weight_in (some entry) = some (votes_as entry.type)

weight_of-votes_as : (entry : ProTxEntry) → weight_of entry ≡ votes_as entry.type
weight_of-votes_as entry = elim (Option-cases entry.type) [
  | inl none_given ↦ rw none_given refl
  | inr (type, given) ↦ rw given refl
]

abbrev IsOf : String → OutpointMaps → Option ProTxEntry → Type 0
IsOf outpoint maps last =
    (lookup outpoint maps.hash_map ≡ hash_in last)
    × (lookup outpoint maps.weight_map ≡ weight_in last)

build_maps-IsOf :
    (outpoint : String) (list : List ProTxEntry) (maps : OutpointMaps) (last : Option ProTxEntry)
    → IsOf outpoint maps last
    → IsOf outpoint (build_maps maps list) (last_entry outpoint list last)
unfolding build_maps last_entry
build_maps-IsOf outpoint [] maps last h = h
build_maps-IsOf outpoint (entry ∷ list) maps last h = build_maps-IsOf outpoint list _ _ (
  ground (arith, h.0, lookup-insert (outpoint_of entry) outpoint entry.pro_tx_hash maps.hash_map),
  ground (
    arith,
    h.1,
    lookup-insert (outpoint_of entry) outpoint (weight_of entry) maps.weight_map,
    weight_of-votes_as entry,
  ),
)

or_fetch-fetches :
    (r : Redis) (c : Codec OutpointMaps) (now : ℕ) (list : List ProTxEntry)
    (d : Option OutpointMaps × r.Store)
    → d.0 ≡ none
    → or_fetch r c now list d ≡ fetch_maps r c now list d.1
or_fetch-fetches r c now list (none, s) h = refl
or_fetch-fetches r c now list (some maps, s) h = absurd (cc h)

-- Where the cache has no maps and the node answers with a list, each outpoint maps to the masternode
-- and the weight of the last entry that has it, 4 for an Evo one and 1 for another, and to nothing if
-- none has it; and for five minutes, whatever the node would answer, a call gives the same maps.
pub get_protx_outpoint-kept :
    (r : Redis) (c : Codec OutpointMaps) (t now : ℕ) (entry : ProTxEntry)
    (list answer : List ProTxEntry) (s : r.Store) (outpoint : String)
    → (Cache.get r c t "protxOutpoint" s).0 ≡ none
    → t ≤ now
    → now < t + protx_outpoint_map_life_time
    → (maps : OutpointMaps) × ((get_protx_outpoint r c t (entry ∷ list) s).0 ≡ some maps)
      × ((get_protx_outpoint r c now answer (get_protx_outpoint r c t (entry ∷ list) s).1).0
          ≡ some maps)
      × (lookup outpoint maps.hash_map ≡ hash_in (last_entry outpoint (entry ∷ list) none))
      × (lookup outpoint maps.weight_map ≡ weight_in (last_entry outpoint (entry ∷ list) none))
unfolding get_protx_outpoint lookup
get_protx_outpoint-kept r c t now entry list answer s outpoint miss before within =
    let maps = build_maps no_maps (entry ∷ list) in
    let (hash, weight) = build_maps-IsOf outpoint (entry ∷ list) no_maps none (refl, refl) in
    let d = Cache.get r c t "protxOutpoint" s in
    let built = or_fetch-fetches r c t (entry ∷ list) d miss in
    let kept =
      get-set r c t now protx_outpoint_map_life_time "protxOutpoint" maps d.1 before within in
    (
      maps,
      ap (λ o. o.0) built,
      ap (λ o. (or_fetch r c now answer (Cache.get r c now "protxOutpoint" o.1)).0) built
          ∙ ap (λ o. (or_fetch r c now answer o).0) kept,
      hash,
      weight,
    )
