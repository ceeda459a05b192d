-- ===== src/Peers.antt =====
-- api/src/dao/PeersDAO.ts with api/src/models/Peer.ts: the peers that the crawler's last round stored. JSON,
-- regular expressions, localeCompare, Number of a text and the location of an address are parameters.
pub mod Listed
pub mod Agents
mod Tests
use dashscan.Prelude.{
  ℕ, zero, suc, ◌+◌, ◌-◌, ◌*◌, Bool, true, false, ◌&&◌, ◌||◌, String, Option, none, some, List, [],
  ◌∷◌, ◌++◌, map, leb, ltb, ◌==◌, str_eq, if◌then◌else◌, get_or_else, keep, sort_by, is_some,
}
use dashscan.Prelude.Maps.{Dict, lookup, insert}
use dashscan.Paging.{PaginatedResultSet, paginate}
use Prim.Native.String.{slice, len}
use text.Mathlib.Text.{find?, starts_with}

-- What the crawler stores, once JSON has read it.
pub record StoredPeer : Type 0 where
  pub addr : Option String
  pub available : Bool
  pub version : Option ℕ
  pub services : Option ℕ
  pub user_agent : Option String
  pub start_height : Option ℕ
  pub last_seen : ℕ
  pub probed_at : ℕ

pub record GeoIpInfo : Type 0 where
  pub country_code : Option String

pub record Peer : Type 0 where
  pub address : String
  pub host : String
  pub port : ℕ
  pub available : Bool
  pub protocol_version : Option ℕ
  pub services : Option ℕ
  pub user_agent : Option String
  pub start_height : Option ℕ
  pub last_seen : ℕ
  pub probed_at : ℕ
  pub geo : Option GeoIpInfo

-- addr.lastIndexOf(':'), which looks at most once for each byte
unfoldable pub last_colon : ℕ → String → Option ℕ
last_colon zero addr = none
last_colon (suc fuel) addr = elim (find? addr ":") [
  | none ↦ none
  | some i ↦ elim (last_colon fuel (slice addr (i + 1) (len addr))) [
    | none ↦ some i
    | some j ↦ some (i + 1 + j)
  ]
]

-- Peer.host; where there is no colon, `slice(0, -1)` leaves out the last character, here the last byte.
unfoldable pub host : String → String
unfolding last_colon
host addr =
    if starts_with addr "["
    then slice addr 1 (get_or_else (find? addr "]") (len addr - 1))
    else slice addr 0 (get_or_else (last_colon (len addr) addr) (len addr - 1))

-- What stands after the last colon, or all of a text without one.
unfoldable pub after_colon : String → String
unfolding last_colon
after_colon addr = elim (last_colon (len addr) addr) [
  | none ↦ addr
  | some i ↦ slice addr (i + 1) (len addr)
]

module _ (parse : String → Option StoredPeer) (number : String → ℕ) where
  abbrev from_addr : StoredPeer → Option String → Option GeoIpInfo → Option Peer
  from_addr stored none geo = none
  from_addr stored (some addr) geo = some (record {
    address = addr;
    host = host addr;
    port = number (after_colon addr);
    available = stored.available;
    protocol_version = stored.version;
    services = stored.services;
    user_agent = stored.user_agent;
    start_height = stored.start_height;
    last_seen = stored.last_seen * 1000;
    probed_at = stored.probed_at * 1000;
    geo = geo;
  })

  abbrev from_parsed : Option StoredPeer → Option GeoIpInfo → Option Peer
  from_parsed none geo = none
  from_parsed (some stored) geo = from_addr stored stored.addr geo

  unfoldable pub from_stored : String → Option GeoIpInfo → Option Peer
  unfolding host after_colon
  from_stored raw geo = from_parsed (parse raw) geo

  -- `none` is a lookup that throws.
  module _ (geo_lookup : String → Option GeoIpInfo) where
    abbrev locate : Bool → Peer → Peer
    locate with_geo peer = if with_geo then record peer { geo = geo_lookup peer.host } else peer

    abbrev located : Bool → Option Peer → List Peer → List Peer
    located with_geo none peers = peers
    located with_geo (some peer) peers = locate with_geo peer ∷ peers

    unfoldable pub load_peers : List String → Bool → List Peer
    unfolding from_stored
    load_peers [] with_geo = []
    load_peers (raw ∷ raws) with_geo =
        located with_geo (from_stored raw none) (load_peers raws with_geo)

-- The tests of filterPeers, each of them made if its argument is given.
abbrev pub country_of : Peer → Option String
country_of peer = elim peer.geo [ none ↦ none | some g ↦ g.country_code ]

abbrev pub equals : Option String → String → Bool
equals none t = false
equals (some s) t = str_eq s t

abbrev pub passes : Option (String → Bool) → Option String → Bool
passes none agent = true
passes (some test) none = false
passes (some test) (some agent) = test agent

abbrev pub is_from : Option String → Peer → Bool
is_from none peer = true
is_from (some country) peer = equals (country_of peer) country

abbrev pub is_ip : Option String → Peer → Bool
is_ip none peer = true
is_ip (some ip) peer = str_eq peer.host ip

unfoldable pub filter_peers :
    List Peer → Option String → Option (String → Bool) → Option String → List Peer
filter_peers peers country user_agent ip =
    keep (is_ip ip) (keep (λ p. passes user_agent p.user_agent) (keep (is_from country) peers))

-- (a.lastSeen - b.lastSeen) * direction is at most 0
abbrev pub is_earlier : Bool → Peer → Peer → Bool
is_earlier descending a b =
    if descending then leb b.last_seen a.last_seen else leb a.last_seen b.last_seen

-- The values of the Redis hashes for the sets that `available` selects.
abbrev pub selected : Option Bool → List String → List String → List String
selected none available unavailable = available ++ unavailable
selected (some true) available unavailable = available
selected (some false) available unavailable = unavailable

pub record PeerUserAgent : Type 0 where
  pub user_agent : String
  pub count : ℕ

-- counts.set(peer.userAgent, (counts.get(peer.userAgent) ?? 0) + 1)
abbrev pub count_agent : Option String → Dict ℕ → Dict ℕ
count_agent none counts = counts
count_agent (some agent) counts = insert agent (get_or_else (lookup agent counts) 0 + 1) counts

unfoldable pub count_agents : Dict ℕ → List Peer → Dict ℕ
count_agents counts [] = counts
count_agents counts (peer ∷ peers) = count_agents (count_agent peer.user_agent counts) peers

abbrev pub to_agent : String × ℕ → PeerUserAgent
to_agent (agent, count) = record { user_agent = agent; count = count }

-- The count decides, and localeCompare between equal counts.
abbrev pub is_listed_before : (String → String → Bool) → Bool → PeerUserAgent → PeerUserAgent → Bool
is_listed_before locale ascending a b =
    if a.count == b.count
    then locale a.user_agent b.user_agent
    else if ascending
    then ltb a.count b.count
    else ltb b.count a.count

module _ (parse : String → Option StoredPeer) (number : String → ℕ)
    (geo_lookup : String → Option GeoIpInfo) where
  unfoldable pub found_peers :
      List String → Bool → Option String → Option (String → Bool) → Option String → List Peer
  unfolding load_peers filter_peers
  found_peers raws descending country user_agent ip =
      sort_by (is_earlier descending)
        (filter_peers (load_peers parse number geo_lookup raws true) country user_agent ip)

  unfoldable pub get_peers :
      List String
      → List String
      → ℕ
      → Option ℕ
      → String
      → Option Bool
      → Option String
      → Option (String → Bool)
      → Option String
      → PaginatedResultSet Peer
  unfolding found_peers paginate
  get_peers available_hash unavailable_hash page limit order available country user_agent ip =
      paginate
        (found_peers (selected available available_hash unavailable_hash) (str_eq order "desc")
          country user_agent ip)
        page limit

  unfoldable pub get_user_agents :
      (String → String → Bool)
      → List String
      → ℕ
      → Option ℕ
      → String
      → PaginatedResultSet PeerUserAgent
  unfolding load_peers count_agents paginate
  get_user_agents locale available_hash page limit order =
      paginate
        (sort_by (is_listed_before locale (str_eq order "asc")) (
          map to_agent (count_agents [] (load_peers parse number geo_lookup available_hash false))))
        page limit
