-- ===== src/Market/Chart.antt =====
-- `getHistoricalChart` of api/src/services/MarketService.ts and its callers: CoinGecko's chart, or for USD
-- Kraken's under a key of its own.
mod Tests
use dashscan.Prelude.{
  ℕ, subst, ◌≤◌, ◌≡◌, ◌≢◌, refl, sym, ◌∙◌, Bool, String, Option, none, some, List, arith, str_eq,
  not, if◌then◌else◌, Bool-cases, inl, inr, eq_iff,
}
use Prim.Native.Char.{code}
use Prim.Native.String as Text
use mathlib.Core.Path.{ap}
use text.Mathlib.TextLemmas.{append_assoc, append_cancel_left, cons-append, head-eq_of_cons-eq}
use dashscan.Cache.{Redis, Codec, key_for}
use dashscan.Market.{MarketCacheEntry, Process, load, down_key, market_cache_life_time}
use dashscan.Market.Current.{Answer, ok, unavailable, load_frame}
use dashscan.Market.Hourly.{DataPoint}
use dashscan.Market.Upstreams.{MarketChart}

abbrev pub chart_key : String → String
chart_key currency = Text.◌++◌ "market:chart:" currency

abbrev pub chart_fallback_key : String
chart_fallback_key = "market:chart:fallback:usd"

-- What the upstreams answer to one request, should it fetch, and what it gets from loads it joins.
pub record ChartUpstream (Amount : Type 0) : Type 0 where
  pub coingecko : Option (MarketChart Amount)
  pub kraken : Option (MarketChart Amount)
  pub joined : Option (MarketChart Amount)
  pub joined_fallback : Option (MarketChart Amount)

module _ (r : Redis) {Amount : Type 0} (c : Codec (MarketCacheEntry (MarketChart Amount)))
    (flag : Codec Bool) where
  abbrev pub load_chart :
      ℕ
      → String
      → ChartUpstream Amount
      → Process r.Store
      → Option (MarketChart Amount) × Process r.Store
  load_chart now currency up p =
      load r c flag now (chart_key currency) market_cache_life_time up.coingecko up.joined p

  abbrev pub available_chart : Option (MarketChart Amount) → Answer (MarketChart Amount)
  available_chart none = unavailable "Historical chart is not available"
  available_chart (some chart) = ok chart

  abbrev pub or_kraken :
      ℕ
      → String
      → ChartUpstream Amount
      → Option (MarketChart Amount) × Process r.Store
      → Option (MarketChart Amount) × Process r.Store
  or_kraken now currency up (some chart, p) = (some chart, p)
  or_kraken now currency up (none, p) =
      if str_eq currency "usd"
      then load r c flag now chart_fallback_key market_cache_life_time up.kraken up.joined_fallback
          p
      else (none, p)

  unfoldable pub get_historical_chart :
      ℕ
      → String
      → ChartUpstream Amount
      → Process r.Store
      → Answer (MarketChart Amount) × Process r.Store
  get_historical_chart now currency up p =
      let (chart, q) = or_kraken now currency up (load_chart now currency up p) in
      (available_chart chart, q)

  abbrev points :
      (MarketChart Amount → List (DataPoint Amount))
      → Answer (MarketChart Amount)
      → Answer (List (DataPoint Amount))
  points f (unavailable message) = unavailable message
  points f (ok chart) = ok (f chart)

  unfoldable pub get_historical_prices :
      ℕ
      → String
      → ChartUpstream Amount
      → Process r.Store
      → Answer (List (DataPoint Amount)) × Process r.Store
  unfolding get_historical_chart
  get_historical_prices now currency up p =
      let (chart, q) = get_historical_chart now currency up p in (points (λ d. d.prices) chart, q)

  unfoldable pub get_historical_market_caps :
      ℕ
      → String
      → ChartUpstream Amount
      → Process r.Store
      → Answer (List (DataPoint Amount)) × Process r.Store
  unfolding get_historical_chart
  get_historical_market_caps now currency up p =
      let (chart, q) = get_historical_chart now currency up p in
      (points (λ d. d.market_caps) chart, q)

  unfoldable pub get_historical_volumes :
      ℕ
      → String
      → ChartUpstream Amount
      → Process r.Store
      → Answer (List (DataPoint Amount)) × Process r.Store
  unfolding get_historical_chart
  get_historical_volumes now currency up p =
      let (chart, q) = get_historical_chart now currency up p in (points (λ d. d.volumes) chart, q)

fallback-ne : chart_fallback_key ≢ chart_key "usd"
fallback-ne e = ground (arith, e, eq_iff chart_fallback_key (chart_key "usd"))

down_fallback-ne : down_key chart_fallback_key ≢ chart_key "usd"
down_fallback-ne e = ground (arith, e, eq_iff (down_key chart_fallback_key) (chart_key "usd"))

module _ (r : Redis) {Amount : Type 0} (c : Codec (MarketCacheEntry (MarketChart Amount)))
    (flag : Codec Bool) where
  -- What the fallback may have done to the outcome of CoinGecko's load.
  abbrev pub IsKept :
      String
      → ℕ
      → Option (MarketChart Amount) × Process r.Store
      → Option (MarketChart Amount) × Process r.Store
      → Type 0
  IsKept currency later d e =
      (r.get e.1.store later (key_for (chart_key currency))
        ≡ r.get d.1.store later (key_for (chart_key currency)))
      × (currency ≢ "usd" → e ≡ d)

  or_kraken-usd :
      (now later : ℕ) (up : ChartUpstream Amount) (q : Process r.Store)
      → now ≤ later
      → IsKept "usd" later
          (none, q)
          (load r c flag now chart_fallback_key market_cache_life_time up.kraken up.joined_fallback
            q)
  or_kraken-usd now later up q before = (
    load_frame r c flag now later market_cache_life_time chart_fallback_key (chart_key "usd")
        up.kraken up.joined_fallback q fallback-ne down_fallback-ne before,
    λ ne. absurd (ne refl),
  )

  or_kraken-IsKept :
      (now later : ℕ) (currency : String) (up : ChartUpstream Amount)
      (d : Option (MarketChart Amount) × Process r.Store)
      → now ≤ later
      → IsKept currency later d (or_kraken r c flag now currency up d)
  or_kraken-IsKept now later currency up (some chart, q) before = (refl, λ ne. refl)
  or_kraken-IsKept now later currency up (none, q) before =
      elim (Bool-cases (str_eq currency "usd")) [
        | inl usd ↦
            let e : currency ≡ "usd" = ground (arith, eq_iff currency "usd") in
            subst (λ k. IsKept k later (none, q) (or_kraken r c flag now k up (none, q))) (sym e)
              (or_kraken-usd now later up q before)
        | inr other ↦ rw other (refl, λ ne. refl)
      ]

-- Whatever the upstreams answer, the fallback leaves the entry of CoinGecko's chart as CoinGecko's own load
-- left it, at every later time; and for another currency than usd there is no fallback: the answer
-- and the state are those of CoinGecko's load.
pub get_historical_chart-keeps :
    (r : Redis) {Amount : Type 0} (c : Codec (MarketCacheEntry (MarketChart Amount)))
    (flag : Codec Bool) (now later : ℕ) (currency : String) (up : ChartUpstream Amount)
    (p : Process r.Store)
    → now ≤ later
    → (r.get
          (get_historical_chart r c flag now currency up p).1.store
          later
          (key_for (chart_key currency))
        ≡ r.get
            (load_chart r c flag now currency up p).1.store
            later
            (key_for (chart_key currency)))
      × (currency ≢ "usd"
          → get_historical_chart r c flag now currency up p ≡ (
            available_chart r c flag (load_chart r c flag now currency up p).0,
            (load_chart r c flag now currency up p).1,
          ))
unfolding get_historical_chart
get_historical_chart-keeps r c flag now later currency up p before =
    let (kept, same) =
      or_kraken-IsKept r c flag now later currency up (load_chart r c flag now currency up p)
        before in
    (kept, λ ne. ap (λ d. (available_chart r c flag d.0, d.1)) (same ne))
