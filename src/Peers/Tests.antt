-- ===== src/Peers/Tests.antt =====
-- The theorems on peers, at three stored ones.
use dashscan.Prelude.{
  ◌+◌, ℕ, ◌≡◌, refl, true, false, String, Option, none, some, List, [], ◌∷◌, ltb, str_eq,
  if◌then◌else◌, sum_of,
}
use dashscan.Peers.{StoredPeer, GeoIpInfo, Peer, host, load_peers, get_peers, get_user_agents}
use dashscan.Peers.Agents.{running, counted, listed, get_user_agents-listed}
use dashscan.Peers.Listed.{asks_for, is_asked, IsBySight, get_peers-listed}

four : host "1.2.3.4:9999" ≡ "1.2.3.4"
unfolding host
four = refl

six : host "[2001:db8::1]:9999" ≡ "2001:db8::1"
unfolding host
six = refl

abbrev stored : String → ℕ → StoredPeer
stored addr seen = record {
  addr = some addr;
  available = true;
  version = none;
  services = none;
  user_agent = some "/Dash Core:21.0/";
  start_height = none;
  last_seen = seen;
  probed_at = seen;
}

abbrev parse : String → Option StoredPeer
parse raw =
    if str_eq raw "a"
    then some (stored "1.2.3.4:9999" 20)
    else if str_eq raw "b"
    then some (stored "5.6.7.8:9999" 10)
    else none

abbrev nowhere : String → Option GeoIpInfo
nowhere address = none

abbrev hash : List String
hash = "a" ∷ "broken" ∷ "b" ∷ []

get_user_agents-listed_example :
    (counted "/Dash Core:21.0/"
        (get_user_agents parse (λ t. 9999) nowhere (λ a b. true) hash 1 none "desc").result_set
      ≡ running "/Dash Core:21.0/" (load_peers parse (λ t. 9999) nowhere hash false))
    × (listed "/Dash Core:21.0/"
          (get_user_agents parse (λ t. 9999) nowhere (λ a b. true) hash 1 none "desc").result_set
        ≡ (if ltb 0 (running "/Dash Core:21.0/" (load_peers parse (λ t. 9999) nowhere hash false))
            then 1
            else 0))
get_user_agents-listed_example =
    get_user_agents-listed parse (λ t. 9999) nowhere (λ a b. true) hash 1 "desc" "/Dash Core:21.0/"

get_peers-listed_example :
    ((f : Peer → ℕ)
      → sum_of f
          (get_peers parse
            (λ t. 9999)
            nowhere
            hash
            []
            1
            none
            "desc"
            none
            none
            none
            (some "1.2.3.4")).result_set
        ≡ (if asks_for true none
            then sum_of
                (λ p. if is_asked none none (some "1.2.3.4") p then f p else 0)
                (load_peers parse (λ t. 9999) nowhere hash true)
            else 0)
          + (if asks_for false none
              then sum_of
                  (λ p. if is_asked none none (some "1.2.3.4") p then f p else 0)
                  (load_peers parse (λ t. 9999) nowhere [] true)
              else 0))
    × IsBySight
        (str_eq "desc" "desc")
        (get_peers parse
          (λ t. 9999)
          nowhere
          hash
          []
          1
          none
          "desc"
          none
          none
          none
          (some "1.2.3.4")).result_set
get_peers-listed_example =
    get_peers-listed parse (λ t. 9999) nowhere hash [] 1 "desc" none none none (some "1.2.3.4")
