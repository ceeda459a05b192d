-- ===== src/Peers/Listed.antt =====
-- The peers that are listed: those that match, in the order of their last sight.
use dashscan.Prelude.{
  ◌+◌, ◌≤◌, ◌++◌, some, not, Option-cases, inl, inr, sort_by, IsApart, All-weaken, ℕ, ◌≡◌, refl,
  ◌∙◌, Bool, true, false, ◌&&◌, String, Option, none, List, [], ◌∷◌, arith, str_eq, if◌then◌else◌,
  sum_of, sum_of-sort_by, sort_by-IsSorted, IsSorted,
}
use dashscan.Paging.{paginate}
use dashscan.Peers.{
  StoredPeer, GeoIpInfo, Peer, load_peers, passes, is_from, is_ip, filter_peers, country_of,
  from_stored, is_earlier, selected, found_peers, get_peers,
}

-- Whether a peer is one that the query names: by the code of its country, by its agent, by its host. A
-- peer without a country or an agent is none that a country or an agent names.
abbrev pub has : Option String → (String → Bool) → Bool
has none test = false
has (some text) test = test text

abbrev pub holds_if_given : {A : Type 0} → Option A → (A → Bool) → Bool
holds_if_given none test = true
holds_if_given (some a) test = test a

abbrev pub is_asked : Option String → Option (String → Bool) → Option String → Peer → Bool
is_asked country user_agent ip p =
    holds_if_given country (λ c. has (country_of p) (λ code. str_eq code c))
    && holds_if_given user_agent (λ test. has p.user_agent test)
    && holds_if_given ip (λ host. str_eq p.host host)

is_from-eq :
    (country : Option String) (p : Peer)
    → is_from country p ≡ holds_if_given country (λ c. has (country_of p) (λ code. str_eq code c))
is_from-eq none p = refl
is_from-eq (some c) p = elim (Option-cases (country_of p)) [
  | inl e ↦ rw e refl
  | inr (code, e) ↦ rw e refl
]

passes-eq :
    (agent : Option (String → Bool)) (a : Option String)
    → passes agent a ≡ holds_if_given agent (λ test. has a test)
passes-eq none a = refl
passes-eq (some test) none = refl
passes-eq (some test) (some a) = refl

is_ip-eq :
    (ip : Option String) (p : Peer) → is_ip ip p ≡ holds_if_given ip (λ host. str_eq p.host host)
is_ip-eq none p = refl
is_ip-eq (some host) p = refl

sum_of-filter_peers :
    (f : Peer → ℕ) (country : Option String) (user_agent : Option (String → Bool))
    (ip : Option String) (peers : List Peer)
    → sum_of f (filter_peers peers country user_agent ip)
      ≡ sum_of (λ p. if is_asked country user_agent ip p then f p else 0) peers
unfolding filter_peers
sum_of-filter_peers f country user_agent ip [] = refl
sum_of-filter_peers f country user_agent ip (p ∷ peers) = ground (
  arith,
  sum_of-filter_peers f country user_agent ip peers,
  is_from-eq country p,
  passes-eq user_agent p.user_agent,
  is_ip-eq ip p,
)

is_earlier_total : (d : Bool) (x y : Peer) → is_earlier d x y ≡ false → is_earlier d y x ≡ true
is_earlier_total true x y h = ground arith
is_earlier_total false x y h = ground arith

is_earlier_trans :
    (d : Bool) (x y z : Peer)
    → is_earlier d x y ≡ true
    → is_earlier d y z ≡ true
    → is_earlier d x z ≡ true
is_earlier_trans true x y z h k = ground arith
is_earlier_trans false x y z h k = ground arith

sum_of-load_peers :
    (f : Peer → ℕ) (parse : String → Option StoredPeer) (number : String → ℕ)
    (geo_lookup : String → Option GeoIpInfo) (raws others : List String)
    → sum_of f (load_peers parse number geo_lookup (raws ++ others) true)
      ≡ sum_of f (load_peers parse number geo_lookup raws true)
        + sum_of f (load_peers parse number geo_lookup others true)
unfolding load_peers
sum_of-load_peers f parse number geo_lookup [] others = omega arith
sum_of-load_peers f parse number geo_lookup (raw ∷ raws) others =
    let rest = sum_of-load_peers f parse number geo_lookup raws others in
    elim (Option-cases (from_stored parse number raw none)) [
      | inl lost ↦ rw lost rest
      | inr (peer, found) ↦ rw found (omega (arith, rest))
    ]

-- Whether a query asks for the peers that are available, or for those that are not.
abbrev pub asks_for : Bool → Option Bool → Bool
asks_for kind none = true
asks_for true (some wanted) = wanted
asks_for false (some wanted) = not wanted

sum_of-selected :
    (f : Peer → ℕ) (parse : String → Option StoredPeer) (number : String → ℕ)
    (geo_lookup : String → Option GeoIpInfo) (available : Option Bool) (up down : List String)
    → sum_of f (load_peers parse number geo_lookup (selected available up down) true)
      ≡ (if asks_for true available
          then sum_of f (load_peers parse number geo_lookup up true)
          else 0)
        + (if asks_for false available
            then sum_of f (load_peers parse number geo_lookup down true)
            else 0)
sum_of-selected f parse number geo_lookup none up down =
    sum_of-load_peers f parse number geo_lookup up down
sum_of-selected f parse number geo_lookup (some true) up down = omega arith
sum_of-selected f parse number geo_lookup (some false) up down = omega arith

-- The peers from the one seen last on, and from the one seen first on.
abbrev pub IsBySight : (descending : Bool) → List Peer → Type 0
IsBySight true peers = IsApart (λ p q. q.last_seen ≤ p.last_seen) peers
IsBySight false peers = IsApart (λ p q. p.last_seen ≤ q.last_seen) peers

IsSorted-IsBySight :
    (d : Bool) (peers : List Peer) → IsSorted (is_earlier d) peers → IsBySight d peers
IsSorted-IsBySight true [] s = tt
IsSorted-IsBySight false [] s = tt
IsSorted-IsBySight true (p ∷ ps) s =
    (All-weaken ps (λ q h. ground (arith, h)) s.0, IsSorted-IsBySight true ps s.1)
IsSorted-IsBySight false (p ∷ ps) s =
    (All-weaken ps (λ q h. ground (arith, h)) s.0, IsSorted-IsBySight false ps s.1)

-- Without a limit, the answer has each peer of the available set, of the unavailable one, or of both, as
-- the query asks, that is of the country, the agent and the address that the query names, as often as it
-- was loaded, and no other peer, so that any measure of peers sums up to the same; and it is in the order
-- of the times at which the peers were last seen, from the latest one on if the order is desc and from the
-- earliest one on if not.
pub get_peers-listed :
    (parse : String → Option StoredPeer) (number : String → ℕ)
    (geo_lookup : String → Option GeoIpInfo) (available_hash unavailable_hash : List String)
    (page : ℕ) (order : String) (available : Option Bool) (country : Option String)
    (user_agent : Option (String → Bool)) (ip : Option String)
    → ((f : Peer → ℕ)
        → sum_of f
            (get_peers parse number geo_lookup available_hash unavailable_hash page none order
              available country user_agent ip).result_set
          ≡ (if asks_for true available
              then sum_of
                  (λ p. if is_asked country user_agent ip p then f p else 0)
                  (load_peers parse number geo_lookup available_hash true)
              else 0)
            + (if asks_for false available
                then sum_of
                    (λ p. if is_asked country user_agent ip p then f p else 0)
                    (load_peers parse number geo_lookup unavailable_hash true)
                else 0))
      × IsBySight
          (str_eq order "desc")
          (get_peers parse number geo_lookup available_hash unavailable_hash page none order
            available country user_agent ip).result_set
unfolding get_peers found_peers paginate
get_peers-listed parse number geo_lookup available_hash unavailable_hash page order available
      country user_agent ip =
    let peers =
      load_peers parse number geo_lookup (selected available available_hash unavailable_hash)
        true in
    let found = filter_peers peers country user_agent ip in
    let descending = str_eq order "desc" in
    (
      λ f.
          sum_of-sort_by (is_earlier descending) f found
          ∙ sum_of-filter_peers f country user_agent ip peers
          ∙ sum_of-selected (λ p. if is_asked country user_agent ip p then f p else 0) parse number
              geo_lookup available available_hash unavailable_hash,
      IsSorted-IsBySight descending (sort_by (is_earlier descending) found) (
          sort_by-IsSorted (is_earlier descending) (is_earlier_total descending)
            (is_earlier_trans descending) found),
    )
