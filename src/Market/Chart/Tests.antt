-- ===== src/Market/Chart/Tests.antt =====
-- The theorems on charts, at small inputs, over a store in memory.
use dashscan.Prelude.{
  ℕ, ◌/◌, ◌≡◌, ◌≢◌, ◌++◌, str_eq, ltb, refl, ap, ◌∙◌, if◌then◌else◌, String, Option, none, some,
  List, [], ◌∷◌, arith,
}
use Prim.Native.String as Text
use dashscan.Cache.Texts.{join, split, split-join, strokes, count-strokes}
use dashscan.Cache.{Codec, key_for}
use dashscan.Cache.Memory.{memory}
use dashscan.Market.{MarketCacheEntry}
use dashscan.Market.Chart.{
  ChartUpstream, chart_key, load_chart, available_chart, get_historical_chart,
  get_historical_chart-keeps,
}
use dashscan.Market.Upstreams.{
  MarketChart, Numbers, KrakenValue, candles, number, kraken_historical_usd, IsDay,
  kraken_historical_usd-last,
}
use dashscan.Market.Hourly.{DataPoint}
use dashscan.Market.Tests.{flag, idle}

-- Charts with one amount only, as texts: the time of the entry, and each point with its list.
abbrev Chart : Type 0
Chart = MarketChart Unit

abbrev points_out : String → List (DataPoint Unit) → List String → List String
points_out tag [] rest = rest
points_out tag (d ∷ ds) rest = tag ∷ strokes d.timestamp ∷ points_out tag ds rest

abbrev chart_out : Chart → List String
chart_out d = points_out "p" d.prices (points_out "m" d.market_caps (points_out "v" d.volumes []))

abbrev no_chart : Chart
no_chart = record { prices = []; market_caps = []; volumes = [] }

abbrev point_in : String → ℕ → Chart → Chart
point_in tag t d =
    if str_eq tag "p"
    then record d { prices = record { timestamp = t; value = tt } ∷ d.prices }
    else if str_eq tag "m"
    then record d { market_caps = record { timestamp = t; value = tt } ∷ d.market_caps }
    else record d { volumes = record { timestamp = t; value = tt } ∷ d.volumes }

abbrev chart_in : List String → Chart
chart_in (tag ∷ t ∷ rest) = point_in tag (Text.count t) (chart_in rest)
chart_in texts = no_chart

volumes-in :
    (vs : List (DataPoint Unit))
    → chart_in (points_out "v" vs []) ≡ record { prices = []; market_caps = []; volumes = vs }
volumes-in [] = refl
volumes-in (d ∷ ds) =
    ap (point_in "v" (Text.count (strokes d.timestamp))) (volumes-in ds)
    ∙ ap
        (λ t. record {
          prices = [];
          market_caps = [];
          volumes = record { timestamp = t; value = tt } ∷ ds;
        })
        (count-strokes d.timestamp)

caps-in :
    (ms vs : List (DataPoint Unit))
    → chart_in (points_out "m" ms (points_out "v" vs []))
      ≡ record { prices = []; market_caps = ms; volumes = vs }
caps-in [] vs = volumes-in vs
caps-in (d ∷ ds) vs =
    ap (point_in "m" (Text.count (strokes d.timestamp))) (caps-in ds vs)
    ∙ ap
        (λ t. record {
          prices = [];
          market_caps = record { timestamp = t; value = tt } ∷ ds;
          volumes = vs;
        })
        (count-strokes d.timestamp)

chart-in :
    (ps ms vs : List (DataPoint Unit))
    → chart_in (points_out "p" ps (points_out "m" ms (points_out "v" vs [])))
      ≡ record { prices = ps; market_caps = ms; volumes = vs }
chart-in [] ms vs = caps-in ms vs
chart-in (d ∷ ds) ms vs =
    ap (point_in "p" (Text.count (strokes d.timestamp))) (chart-in ds ms vs)
    ∙ ap
        (λ t. record {
          prices = record { timestamp = t; value = tt } ∷ ds;
          market_caps = ms;
          volumes = vs;
        })
        (count-strokes d.timestamp)

abbrev entry_in : List String → Option (MarketCacheEntry Chart)
entry_in [] = none
entry_in (t ∷ texts) = some (record { value = chart_in texts; fetched_at = Text.count t })

abbrev chart_codec : Codec (MarketCacheEntry Chart)
chart_codec = record {
  stringify = λ e. join (strokes e.fetched_at ∷ chart_out e.value);
  parse = λ text. entry_in (split text);
  parse-stringify = λ e.
      ap entry_in (split-join (strokes e.fetched_at ∷ chart_out e.value))
      ∙ ap (λ t. some (record { value = chart_in (chart_out e.value); fetched_at = t }))
          (count-strokes e.fetched_at)
      ∙ ap (λ d. some (record { value = d; fetched_at = e.fetched_at }))
          (chart-in e.value.prices e.value.market_caps e.value.volumes);
}

abbrev currency : String
currency = "usd"

abbrev day : Chart
day = record { prices = record { timestamp = 7; value = tt } ∷ []; market_caps = []; volumes = [] }

abbrev chart_outage : ChartUpstream Unit
chart_outage = record { coingecko = none; kraken = some day; joined = none; joined_fallback = none }

get_historical_chart-keeps_example :
    (memory.get
        (get_historical_chart memory chart_codec flag 1000 currency chart_outage idle).1.store
        2000
        (key_for (chart_key currency))
      ≡ memory.get
          (load_chart memory chart_codec flag 1000 currency chart_outage idle).1.store
          2000
          (key_for (chart_key currency)))
    × (currency ≢ currency
        → get_historical_chart memory chart_codec flag 1000 currency chart_outage idle ≡ (
          available_chart memory chart_codec flag
              (load_chart memory chart_codec flag 1000 currency chart_outage idle).0,
          (load_chart memory chart_codec flag 1000 currency chart_outage idle).1,
        ))
get_historical_chart-keeps_example =
    get_historical_chart-keeps memory chart_codec flag 1000 2000 currency chart_outage idle
      (omega arith)

abbrev whole : Numbers
whole = record {
  Amount = ℕ;
  parse_float = λ t. some (Text.count t);
  is_positive = λ n. ltb 0 n;
  quotient = λ a b. a / b;
}

abbrev hours : List (String × KrakenValue)
hours = ("DASHUSD", candles (record { timestamp = 1; close = "||"; volume = "|" } ∷ [])) ∷ []

kraken_historical_usd-last_example :
    (kraken_historical_usd whole
        (λ t. Text.count t)
        (some (record { error = none; result = some ([] ++ ("last", number 5) ∷ hours) }))
      ≡ kraken_historical_usd whole
          (λ t. Text.count t)
          (some (record { error = none; result = some ([] ++ hours) })))
    × IsDay (
        kraken_historical_usd whole
          (λ t. Text.count t)
          (some (record { error = none; result = some ([] ++ ("last", number 5) ∷ hours) })))
kraken_historical_usd-last_example =
    kraken_historical_usd-last whole (λ t. Text.count t) none [] hours 5
