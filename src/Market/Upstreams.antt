-- ===== src/Market/Upstreams.antt =====
-- The providers of api/src/services/MarketService.ts: what they make of the bodies that CoinGecko and Kraken
-- send. A body is what JSON reads, `none` a request that failed, and an error `none`.
use dashscan.Prelude.{
  ℕ, ◌-◌, ◌≤◌, ◌≡◌, refl, ap, Bool, true, false, String, Option, none, some, List, [], ◌∷◌, ◌++◌,
  map, arith, ltb, str_eq, if◌then◌else◌, get_or_else, drop, length, length-drop, length-map,
}
use dashscan.Market.Hourly.{DataPoint, compact_to_hourly}
use dashscan.Market.Current.{CurrentData}

pub record MarketChart (Amount : Type 0) : Type 0 where
  pub prices : List (DataPoint Amount)
  pub market_caps : List (DataPoint Amount)
  pub volumes : List (DataPoint Amount)

-- Kraken reports a failure in the body, as a list of errors.
abbrev pub has_error : Option (List String) → Bool
has_error none = false
has_error (some errors) = ltb 0 (length errors)

-- The fields of `dash` that the code reads, by the currency.
pub record CoingeckoPrice (Amount : Type 0) : Type 0 where
  pub price : Option Amount
  pub market_cap : Option Amount
  pub volume : Option Amount

pub record CoingeckoChart (Amount : Type 0) : Type 0 where
  pub prices : Option (List (ℕ × Amount))
  pub market_caps : Option (List (ℕ × Amount))
  pub total_volumes : Option (List (ℕ × Amount))

module _ {Amount : Type 0} where
  abbrev quoted : CoingeckoPrice Amount → Option Amount → Option (CurrentData Amount)
  quoted dash none = none
  quoted dash (some price) =
      some (record { price = price; market_cap = dash.market_cap; volume = dash.volume })

  unfoldable pub coingecko_current : Option (CoingeckoPrice Amount) → Option (CurrentData Amount)
  coingecko_current none = none
  coingecko_current (some dash) = quoted dash dash.price

  abbrev charted : CoingeckoChart Amount → Option (List (ℕ × Amount)) → Option (MarketChart Amount)
  charted body none = none
  charted body (some prices) = some (record {
    prices = compact_to_hourly prices;
    market_caps = compact_to_hourly (get_or_else body.market_caps []);
    volumes = compact_to_hourly (get_or_else body.total_volumes []);
  })

  unfoldable pub coingecko_historical_chart :
      Option (CoingeckoChart Amount) → Option (MarketChart Amount)
  unfolding compact_to_hourly
  coingecko_historical_chart none = none
  coingecko_historical_chart (some body) = charted body body.prices

-- The last prices `c` of the pairs, in the order of the result.
pub record KrakenTicker : Type 0 where
  pub error : Option (List String)
  pub result : Option (List (Option (List String)))

-- Numbers with the operations that the code applies to them: `parse_float` of a text, where it is finite,
-- the test for a number above 0, and the quotient.
pub record Numbers : Type 1 where
  pub Amount : Type 0
  pub parse_float : String → Option Amount
  pub is_positive : Amount → Bool
  pub quotient : Amount → Amount → Amount

pub record Candle : Type 0 where
  pub timestamp : ℕ
  pub close : String
  pub volume : String

-- A value of Kraken's result: candles, or a number.
pub data KrakenValue : Type 0 where
  candles : List Candle → KrakenValue
  number : ℕ → KrakenValue

pub record KrakenOhlc : Type 0 where
  pub error : Option (List String)
  pub result : Option (List (String × KrakenValue))

-- Object.entries(...).find(([key]) => key !== 'last')?.[1], if it is an array
unfoldable pub find_candles : List (String × KrakenValue) → List Candle
find_candles [] = []
find_candles ((key, candles cs) ∷ entries) =
    let later = find_candles entries in if str_eq key "last" then later else cs
find_candles ((key, number n) ∷ entries) =
    let later = find_candles entries in if str_eq key "last" then later else []

-- candles.slice(-24)
abbrev pub last_24 : List Candle → List Candle
last_24 cs = drop (length cs - 24) cs

module _ (n : Numbers) where
  abbrev first_price : Option (List String) → Option n.Amount
  first_price none = none
  first_price (some []) = none
  first_price (some (text ∷ rest)) = n.parse_float text

  abbrev first_of : List (Option (List String)) → Option n.Amount
  first_of [] = none
  first_of (c ∷ rest) = first_price c

  abbrev if_positive : Option n.Amount → Option n.Amount
  if_positive none = none
  if_positive (some price) = if n.is_positive price then some price else none

  unfoldable pub kraken_last_price : Option KrakenTicker → Option n.Amount
  kraken_last_price none = none
  kraken_last_price (some body) =
      if has_error body.error then none else if_positive (first_of (get_or_else body.result []))

  abbrev cross : Option n.Amount → Option n.Amount → Option n.Amount
  cross (some dash_usd) (some btc_usd) = some (n.quotient dash_usd btc_usd)
  cross (some dash_usd) none = none
  cross none btc_usd = none

  -- The bodies for the pairs DASHUSD and XBTUSD.
  unfoldable pub kraken_current_price :
      String → Option KrakenTicker → Option KrakenTicker → Option n.Amount
  unfolding kraken_last_price
  kraken_current_price currency dash btc =
      if str_eq currency "usd"
      then kraken_last_price dash
      else cross (kraken_last_price dash) (kraken_last_price btc)

  -- `parseFloat` of a candle, whose texts are numbers.
  module _ (number_of : String → n.Amount) where
    abbrev pub price_of : Candle → DataPoint n.Amount
    price_of c = record { timestamp = c.timestamp; value = number_of c.close }

    abbrev pub volume_of : Candle → DataPoint n.Amount
    volume_of c = record { timestamp = c.timestamp; value = number_of c.volume }

    abbrev pub chart_of : List Candle → Option (MarketChart n.Amount)
    chart_of [] = none
    chart_of (c ∷ cs) = some (record {
      prices = map price_of (last_24 (c ∷ cs));
      market_caps = [];
      volumes = map volume_of (last_24 (c ∷ cs));
    })

    unfoldable pub kraken_historical_usd : Option KrakenOhlc → Option (MarketChart n.Amount)
    unfolding find_candles
    kraken_historical_usd none = none
    kraken_historical_usd (some body) =
        if has_error body.error then none else chart_of (find_candles (get_or_else body.result []))

find_candles-last :
    (xs ys : List (String × KrakenValue)) (v : KrakenValue)
    → find_candles (xs ++ ("last", v) ∷ ys) ≡ find_candles (xs ++ ys)
unfolding find_candles
find_candles-last [] ys (candles cs) = refl
find_candles-last [] ys (number n) = refl
find_candles-last ((key, candles cs) ∷ xs) ys v =
    ap (λ later. if str_eq key "last" then later else cs) (find_candles-last xs ys v)
find_candles-last ((key, number n) ∷ xs) ys v =
    ap (λ later. if str_eq key "last" then later else []) (find_candles-last xs ys v)

-- What a chart of Kraken is: as many prices as volumes, from 1 to 24.
abbrev pub IsDay : {A : Type 0} → Option (MarketChart A) → Type 0
IsDay none = Unit
IsDay (some chart) =
    (length chart.prices ≡ length chart.volumes)
    × (1 ≤ length chart.prices)
    × (length chart.prices ≤ 24)

IsDay-if :
    {A : Type 0} (b : Bool) (c : Option (MarketChart A)) → IsDay c → IsDay (if b then none else c)
IsDay-if true c h = tt
IsDay-if false c h = h

chart_of-IsDay :
    (n : Numbers) (number_of : String → n.Amount) (cs : List Candle)
    → IsDay (chart_of n number_of cs)
chart_of-IsDay n number_of [] = tt
chart_of-IsDay n number_of (c ∷ cs) =
    let window = last_24 (c ∷ cs) in
    let l = length-drop (length (c ∷ cs) - 24) (c ∷ cs) in
    let p = length-map window (price_of n number_of) in
    let v = length-map window (volume_of n number_of) in
    (omega (arith, p, v), omega (arith, l, p), omega (arith, l, p))

-- Wherever the scalar last stands in Kraken's result, the chart is that of the result without it; and a
-- chart has as many prices as volumes, at least one and at most 24.
pub kraken_historical_usd-last :
    (n : Numbers) (number_of : String → n.Amount) (failed : Option (List String))
    (before after : List (String × KrakenValue)) (last : ℕ)
    → (kraken_historical_usd n number_of (
          some (record { error = failed; result = some (before ++ ("last", number last) ∷ after) }))
        ≡ kraken_historical_usd n number_of
            (some (record { error = failed; result = some (before ++ after) })))
      × IsDay (
          kraken_historical_usd n number_of (
            some
              (record { error = failed; result = some (before ++ ("last", number last) ∷ after) })))
unfolding kraken_historical_usd
kraken_historical_usd-last n number_of failed before after last = (
  ap (λ cs. if has_error failed then none else chart_of n number_of cs)
      (find_candles-last before after (number last)),
  IsDay-if (has_error failed) _ (chart_of-IsDay n number_of _),
)
