-- ===== src/Peers/Agents.antt =====
-- The user agents: each once, with the number of the peers that run it.
use dashscan.Prelude.{
  ℕ, ◌+◌, ◌≡◌, refl, ap, ◌∙◌, sym, Bool, false, String, Option, none, some, List, [], ◌∷◌, map,
  arith, ltb, str_eq, if◌then◌else◌, get_or_else, sum_of, sum_of-sort_by, is_some, eq_iff,
  Bool-cases, inl, inr,
}
use dashscan.Prelude.Maps.{Dict, lookup, lookup-insert, IsDistinct, insert-IsDistinct}
use dashscan.Paging.{paginate}
use dashscan.Peers.{
  StoredPeer, GeoIpInfo, Peer, load_peers, equals, PeerUserAgent, count_agent, count_agents,
  to_agent, is_listed_before, get_user_agents,
}

-- How many of the peers advertise an agent.
abbrev pub running : String → List Peer → ℕ
running agent peers = sum_of (λ p. if equals p.user_agent agent then 1 else 0) peers

-- What a list of agents says of one: the sum of its counts, and how often it stands there.
abbrev pub counted : String → List PeerUserAgent → ℕ
counted agent us = sum_of (λ u. if str_eq u.user_agent agent then u.count else 0) us

abbrev pub listed : String → List PeerUserAgent → ℕ
listed agent us = sum_of (λ u. if str_eq u.user_agent agent then 1 else 0) us

abbrev add_to : Option ℕ → ℕ → Option ℕ
add_to none n = if ltb 0 n then some n else none
add_to (some m) n = some (m + n)

add_to_zero : (o : Option ℕ) → o ≡ add_to o 0
add_to_zero none = refl
add_to_zero (some m) = ap some (omega arith)

add_to_add : (o : Option ℕ) (a b : ℕ) → add_to (add_to o a) b ≡ add_to o (a + b)
add_to_add none a b = ground arith
add_to_add (some m) a b = ap some (omega arith)

add_to_one : (o : Option ℕ) → some (get_or_else o 0 + 1) ≡ add_to o 1
add_to_one none = refl
add_to_one (some m) = refl

count_of : (n : ℕ) → get_or_else (add_to none n) 0 ≡ n
count_of n = ground arith

abbrev bit : Bool → ℕ
bit b = if b then 1 else 0

listed_of : (n : ℕ) → bit (is_some (add_to none n)) ≡ bit (ltb 0 n)
listed_of n = ground arith

lookup-count_agent :
    (agent : String) (o : Option String) (m : Dict ℕ)
    → lookup agent (count_agent o m) ≡ add_to (lookup agent m) (if equals o agent then 1 else 0)
lookup-count_agent agent none m = add_to_zero (lookup agent m)
lookup-count_agent agent (some a) m = elim (Bool-cases (str_eq a agent)) [
  | inl same ↦
      let e : a ≡ agent = ground (arith, eq_iff a agent) in
      lookup-insert a agent (get_or_else (lookup a m) 0 + 1) m
      ∙ ap (λ b. if b then some (get_or_else (lookup a m) 0 + 1) else lookup agent m) same
      ∙ add_to_one (lookup a m)
      ∙ ap (λ k. add_to (lookup k m) 1) e
      ∙ ap (λ b. add_to (lookup agent m) (if b then 1 else 0)) (sym same)
  | inr other ↦
      lookup-insert a agent (get_or_else (lookup a m) 0 + 1) m
      ∙ ap (λ b. if b then some (get_or_else (lookup a m) 0 + 1) else lookup agent m) other
      ∙ add_to_zero (lookup agent m)
      ∙ ap (λ b. add_to (lookup agent m) (if b then 1 else 0)) (sym other)
]

lookup-count_agents :
    (agent : String) (m : Dict ℕ) (peers : List Peer)
    → lookup agent (count_agents m peers) ≡ add_to (lookup agent m) (running agent peers)
unfolding count_agents
lookup-count_agents agent m [] = add_to_zero (lookup agent m)
lookup-count_agents agent m (peer ∷ peers) =
    lookup-count_agents agent (count_agent peer.user_agent m) peers
    ∙ ap (λ o. add_to o (running agent peers)) (lookup-count_agent agent peer.user_agent m)
    ∙ add_to_add (lookup agent m) _ (running agent peers)

count_agents-IsDistinct :
    (m : Dict ℕ) (peers : List Peer) → IsDistinct m → IsDistinct (count_agents m peers)
unfolding count_agents
count_agents-IsDistinct m [] d = d
count_agents-IsDistinct m (peer ∷ peers) d =
    count_agents-IsDistinct (count_agent peer.user_agent m) peers (counted-once peer.user_agent)
  where
    counted-once : (o : Option String) → IsDistinct (count_agent o m)
    counted-once none = d
    counted-once (some agent) = insert-IsDistinct agent _ m d

counted-map :
    (agent : String) (m : Dict ℕ)
    → IsDistinct m
    → counted agent (map to_agent m) ≡ get_or_else (lookup agent m) 0
unfolding lookup
counted-map agent [] d = refl
counted-map agent ((a, n) ∷ m) d = ground (arith, counted-map agent m d.1, eq_iff a agent)

listed-map :
    (agent : String) (m : Dict ℕ)
    → IsDistinct m
    → listed agent (map to_agent m) ≡ (if is_some (lookup agent m) then 1 else 0)
unfolding lookup
listed-map agent [] d = refl
listed-map agent ((a, n) ∷ m) d = ground (arith, listed-map agent m d.1, eq_iff a agent)

-- Without a limit, the answer lists an agent once if some loaded peer advertises it, and not otherwise,
-- and its count is the number of the loaded peers that do.
pub get_user_agents-listed :
    (parse : String → Option StoredPeer) (number : String → ℕ)
    (geo_lookup : String → Option GeoIpInfo) (locale : String → String → Bool)
    (available_hash : List String) (page : ℕ) (order agent : String)
    → (counted agent
          (get_user_agents parse number geo_lookup locale available_hash page none order).result_set
        ≡ running agent (load_peers parse number geo_lookup available_hash false))
      × (listed agent
            (get_user_agents parse number geo_lookup locale available_hash page none
              order).result_set
          ≡ (if ltb 0 (running agent (load_peers parse number geo_lookup available_hash false))
              then 1
              else 0))
unfolding get_user_agents paginate lookup
get_user_agents-listed parse number geo_lookup locale available_hash page order agent =
    let peers = load_peers parse number geo_lookup available_hash false in
    let counts = count_agents [] peers in
    let le = is_listed_before locale (str_eq order "asc") in
    let total = lookup-count_agents agent [] peers in
    let once = count_agents-IsDistinct [] peers tt in
    let n = running agent peers in
    (
      sum_of-sort_by le (λ u. if str_eq u.user_agent agent then u.count else 0)
            (map to_agent counts)
          ∙ counted-map agent counts once
          ∙ ap (λ o. get_or_else o 0) total
          ∙ count_of n,
      sum_of-sort_by le (λ u. if str_eq u.user_agent agent then 1 else 0) (map to_agent counts)
          ∙ listed-map agent counts once
          ∙ ap (λ o. if is_some o then 1 else 0) total
          ∙ listed_of n,
    )
