-- ===== src/Market/Freshness.antt =====
-- What loads answer after a success: the value, fresh or stale, for as long as the entry lasts.
use dashscan.Prelude.{
  ℕ, ◌+◌, ◌≤◌, ◌<◌, ◌≡◌, ap, ◌∙◌, Bool, String, Option, none, some, arith, if◌then◌else◌, eq_refl,
}
use dashscan.Prelude.Maps.{lookup, remove, lookup-remove}
use dashscan.Cache
use dashscan.Cache.{Redis, Codec}
use dashscan.Cache.Laws.{get-set}
use dashscan.Market.{
  MarketCacheEntry, serve, Process, load_start, load_finish, load, market_stale_life_time,
}

module _ (r : Redis) {A : Type 0} (c : Codec (MarketCacheEntry A)) (flag : Codec Bool) where
  -- A load that reads an entry answers with its value if it is fresh, and also if its upstream fails.
  load_start-serves :
      (now ttl : ℕ) (key : String) (e : MarketCacheEntry A) (p : Process r.Store)
      → Cache.get r c now key p.store ≡ (some e, p.store)
      → now < e.fetched_at + ttl
      → load_start r c flag now key ttl p ≡ (serve e.value, p)
  unfolding load_start
  load_start-serves now ttl key e p h fresh = rw (h, load_start) (ground arith)

  load-stale :
      (now ttl : ℕ) (key : String) (e : MarketCacheEntry A) (joined : Option A)
      (p : Process r.Store)
      → Cache.get r c now key p.store ≡ (some e, p.store)
      → lookup key p.in_flight ≡ none
      → (load r c flag now key ttl none joined p).0 ≡ some e.value
  unfolding load
  load-stale now ttl key e joined p h free = rw (h, load, load_start) (ground arith)

-- For a day after a successful load, a load of that key answers with its value even if the upstream
-- fails, with or without the marker of an earlier failure; and while the value is younger than the time
-- to live, the upstream is not asked.
pub load-after_success :
    (r : Redis) {A : Type 0} (c : Codec (MarketCacheEntry A)) (flag : Codec Bool) (t now ttl : ℕ)
    (key : String) (cached : Option (MarketCacheEntry A)) (v : A) (joined : Option A)
    (p : Process r.Store)
    → t ≤ now
    → now < t + market_stale_life_time
    → ((load r c flag now key ttl none joined (load_finish r c flag t key cached (some v) p).1).0
        ≡ some v)
      × (now < t + ttl
          → load_start r c flag now key ttl (load_finish r c flag t key cached (some v) p).1
            ≡ (serve v, (load_finish r c flag t key cached (some v) p).1))
unfolding load_finish
load-after_success r c flag t now ttl key cached v joined p before kept =
    let e : MarketCacheEntry _ = record { value = v; fetched_at = t } in
    let q = (load_finish r c flag t key cached (some v) p).1 in
    let read = get-set r c t now market_stale_life_time key e p.store before kept in
    let free : lookup key (remove key p.in_flight) ≡ none =
      lookup-remove key key p.in_flight
      ∙ ap (λ b. if b then none else lookup key p.in_flight) (eq_refl key) in
    (
      load-stale r c flag now ttl key e joined q read free,
      λ fresh. load_start-serves r c flag now ttl key e q read fresh,
    )
