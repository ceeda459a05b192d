-- ===== src/Market.antt =====
-- `load` of api/src/services/MarketService.ts, over the shared cache. The values that upstreams
-- quote are floats, and any type here. `load` is cut where it waits for its upstream: before the
-- fetch, and after it.
pub mod Hourly
pub mod Freshness
pub mod Outage
pub mod Current
pub mod Upstreams
pub mod Chart
mod Tests
use dashscan.Prelude.{
  ℕ, zero, ◌+◌, ◌*◌, Bool, true, false, String, Option, none, some, ltb, if◌then◌else◌, is_some,
}
use dashscan.Prelude.Maps.{Dict, lookup, insert, remove}
use dashscan.Cache.{Redis, Codec}
use dashscan.Cache
use Prim.Native.String as Text

abbrev pub market_cache_life_time : ℕ
market_cache_life_time = 1000 * 60 * 60

abbrev pub market_stale_life_time : ℕ
market_stale_life_time = 1000 * 60 * 60 * 24

abbrev pub market_failure_life_time : ℕ
market_failure_life_time = 1000 * 60

pub record MarketCacheEntry (A : Type 0) : Type 0 where
  pub value : A
  pub fetched_at : ℕ

-- What a load does before it waits: it answers at once, throws, waits for the load that runs, or
-- starts to fetch, with the entry it had read.
pub data Decision (A : Type 0) : Type 0 where
  serve : A → Decision A
  down : Decision A
  join : ℕ → Decision A
  fetch : Option (MarketCacheEntry A) → Decision A

abbrev pub down_key : String → String
down_key key = Text.◌++◌ key ":down"

-- The process: the store that all share, its own map of loads, and how many it has started.
pub record Process (Store : Type 0) : Type 0 where
  pub store : Store
  pub in_flight : Dict ℕ
  pub started : ℕ

module _ {A : Type 0} where
  -- `Date.now() - cached.fetchedAt < ttlMs`, also where the clock of the writer was ahead
  abbrev pub is_fresh : ℕ → ℕ → Option (MarketCacheEntry A) → Bool
  is_fresh now ttl none = false
  is_fresh now ttl (some e) = ltb now (e.fetched_at + ttl)

  -- `cached.value`, or else d
  abbrev pub serve_or : Decision A → Option (MarketCacheEntry A) → Decision A
  serve_or d none = d
  serve_or d (some e) = serve e.value

  abbrev pub value_of : Option (MarketCacheEntry A) → Option A
  value_of none = none
  value_of (some e) = some e.value

module _ (r : Redis) {A : Type 0} (c : Codec (MarketCacheEntry A)) (flag : Codec Bool) where
  -- The test of the map and the start of the fetch, which nothing comes between.
  unfoldable pub join_or_fetch :
      String → Option (MarketCacheEntry A) → Process r.Store → Decision A × Process r.Store
  join_or_fetch key cached p = elim (lookup key p.in_flight) [
    | some running ↦ (join running, p)
    | none ↦ (
      fetch cached,
      record p { in_flight = insert key p.started p.in_flight; started = p.started + 1 },
    )
  ]

  unfoldable pub load_start : ℕ → String → ℕ → Process r.Store → Decision A × Process r.Store
  unfolding join_or_fetch
  load_start now key ttl p =
      let (cached, store) = Cache.get r c now key p.store in
      let (marker, store') = Cache.get r flag now (down_key key) store in
      if is_fresh now ttl cached
      then (serve_or down cached, record p { store = store })
      else if is_some marker
      then (serve_or down cached, record p { store = store' })
      else join_or_fetch key cached (record p { store = store' })

  -- The `then`, `catch` and `finally` of the refresh; `none` is what `fetchValue` threw.
  unfoldable pub load_finish :
      ℕ
      → String
      → Option (MarketCacheEntry A)
      → Option A
      → Process r.Store
      → Option A × Process r.Store
  load_finish now key cached (some value) p = (
    some value,
    record p {
      store =
          Cache.set r c now key (record { value = value; fetched_at = now })
            (some market_stale_life_time) p.store;
      in_flight = remove key p.in_flight;
    },
  )
  load_finish now key cached none p = (
    value_of cached,
    record p {
      store = Cache.set r flag now (down_key key) true (some market_failure_life_time) p.store;
      in_flight = remove key p.in_flight;
    },
  )

  -- A load whose upstream answers at once; `none` is an error for the caller. `joined` is what the
  -- load that it waits for gives.
  abbrev pub settle :
      ℕ → String → Option A → Option A → Decision A × Process r.Store → Option A × Process r.Store
  settle now key outcome joined (serve a, p) = (some a, p)
  settle now key outcome joined (down, p) = (none, p)
  settle now key outcome joined (join q, p) = (joined, p)
  settle now key outcome joined (fetch cached, p) = load_finish now key cached outcome p

  unfoldable pub load :
      ℕ → String → ℕ → Option A → Option A → Process r.Store → Option A × Process r.Store
  unfolding load_start load_finish
  load now key ttl outcome joined p = settle now key outcome joined (load_start now key ttl p)
