-- ===== src/Governance/Outpoints/Tests.antt =====
-- The theorems on the maps of outpoints, at two masternodes, over a store in memory.
use dashscan.Prelude.{
  ℕ, ◌≡◌, refl, ap, ◌∙◌, String, none, some, List, [], ◌∷◌, arith, str_eq, if◌then◌else◌,
}
use dashscan.Prelude.Maps.{Dict, lookup}
use dashscan.Cache
use dashscan.Cache.{Codec}
use dashscan.Cache.Memory.{Memory, memory}
use dashscan.Cache.Texts.{join, split, split-join, strokes, count-strokes}
use dashscan.Governance.Outpoints.{ProTxEntry, OutpointMaps, get_protx_outpoint, no_maps}
use dashscan.Governance.Outpoints.Cached.{last_entry, hash_in, weight_in, get_protx_outpoint-kept}
use Prim.Native.String as Text

-- The maps as texts: three for each entry.
abbrev weights_out : Dict ℕ → List String
weights_out [] = []
weights_out ((k, n) ∷ m) = "weight" ∷ k ∷ strokes n ∷ weights_out m

abbrev out : Dict String → Dict ℕ → List String
out [] m = weights_out m
out ((k, v) ∷ hashes) m = "hash" ∷ k ∷ v ∷ out hashes m

abbrev add : String → String → String → OutpointMaps → OutpointMaps
add tag k v maps =
    if str_eq tag "hash"
    then record maps { hash_map = (k, v) ∷ maps.hash_map }
    else record maps { weight_map = (k, Text.count v) ∷ maps.weight_map }

abbrev back : List String → OutpointMaps
back (tag ∷ k ∷ v ∷ rest) = add tag k v (back rest)
back texts = no_maps

back-weights : (m : Dict ℕ) → back (weights_out m) ≡ record { hash_map = []; weight_map = m }
back-weights [] = refl
back-weights ((k, n) ∷ m) =
    ap (add "weight" k (strokes n)) (back-weights m)
    ∙ ap (λ i. record { hash_map = []; weight_map = (k, i) ∷ m }) (count-strokes n)

back-out :
    (hashes : Dict String) (m : Dict ℕ)
    → back (out hashes m) ≡ record { hash_map = hashes; weight_map = m }
back-out [] m = back-weights m
back-out ((k, v) ∷ hashes) m = ap (add "hash" k v) (back-out hashes m)

abbrev codec : Codec OutpointMaps
codec = record {
  stringify = λ maps. join (out maps.hash_map maps.weight_map);
  parse = λ text. some (back (split text));
  parse-stringify = λ maps.
      ap (λ texts. some (back texts)) (split-join (out maps.hash_map maps.weight_map))
      ∙ ap some (back-out maps.hash_map maps.weight_map);
}

abbrev evo : ProTxEntry
evo = record { pro_tx_hash = "p"; collateral_hash = "a"; collateral_index = "0"; type = some "Evo" }

abbrev regular : ProTxEntry
regular = record { pro_tx_hash = "q"; collateral_hash = "b"; collateral_index = "1"; type = none }

abbrev empty : Memory
empty = λ t k. none

get_protx_outpoint-kept_example :
    (maps : OutpointMaps) × ((get_protx_outpoint memory codec 1000 (evo ∷ regular ∷ []) empty).0
      ≡ some maps)
    × ((get_protx_outpoint memory codec 5000 []
          (get_protx_outpoint memory codec 1000 (evo ∷ regular ∷ []) empty).1).0
        ≡ some maps)
    × (lookup "a-0" maps.hash_map ≡ hash_in (last_entry "a-0" (evo ∷ regular ∷ []) none))
    × (lookup "a-0" maps.weight_map ≡ weight_in (last_entry "a-0" (evo ∷ regular ∷ []) none))
unfolding Cache.get
get_protx_outpoint-kept_example =
    get_protx_outpoint-kept memory codec 1000 5000 evo (regular ∷ []) [] empty "a-0" refl
      (omega arith) (omega arith)

abbrev both : OutpointMaps
both = record {
  hash_map = ("a-0", "p") ∷ ("b-1", "q") ∷ [];
  weight_map = ("a-0", 4) ∷ ("b-1", 1) ∷ [];
}

abbrev answers : String → List String
answers hash = "a-0:5:yes:funding" ∷ "b-1:5:no:funding" ∷ []
