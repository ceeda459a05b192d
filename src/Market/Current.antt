-- ===== src/Market/Current.antt =====
-- `getCurrentData` of api/src/services/MarketService.ts and its callers: CoinGecko first, Kraken's
-- price under a key of its own if that fails.
use dashscan.Prelude.{
  ℕ, ◌≤◌, ◌≡◌, ◌≢◌, refl, sym, ap, ◌∙◌, Bool, true, String, Option, none, some, arith,
}
use mathlib.Core.Option
use Prim.Native.Char.{code}
use Prim.Native.String as Text
use text.Mathlib.TextLemmas.{append_assoc, append_cancel_left, cons-append, head-eq_of_cons-eq}
use dashscan.Cache
use dashscan.Cache.{Redis, Codec, key_for}
use dashscan.Cache.Laws.{raw-get_ne, raw-set_ne}
use dashscan.Market.{
  MarketCacheEntry, Decision, serve, down, join, fetch, Process, load_start, load_finish, settle,
  load, down_key, market_cache_life_time, market_stale_life_time, market_failure_life_time,
}

pub record CurrentData (Amount : Type 0) : Type 0 where
  pub price : Amount
  pub market_cap : Option Amount
  pub volume : Option Amount

-- A result, or MarketDataUnavailableError with its message.
pub data Answer (A : Type 0) : Type 0 where
  ok : A → Answer A
  unavailable : String → Answer A

abbrev pub current_key : String → String
current_key currency = Text.◌++◌ "market:current:" currency

abbrev pub fallback_key : String → String
fallback_key currency = Text.◌++◌ "market:fallback:" currency

-- What the upstreams answer to one request, should it fetch, and what it gets from loads it joins.
pub record Upstream (Amount : Type 0) : Type 0 where
  pub coingecko : Option (CurrentData Amount)
  pub kraken : Option Amount
  pub joined : Option (CurrentData Amount)
  pub joined_fallback : Option (CurrentData Amount)

module _ (r : Redis) {Amount : Type 0} (c : Codec (MarketCacheEntry (CurrentData Amount)))
    (flag : Codec Bool) where
  abbrev pub price_only : Amount → CurrentData Amount
  price_only price = record { price = price; market_cap = none; volume = none }

  abbrev pub load_fallback :
      ℕ → String → Upstream Amount → Process r.Store → Option (CurrentData Amount) × Process r.Store
  load_fallback now currency up p =
      load r c flag now (fallback_key currency) market_cache_life_time
        (Option.map price_only up.kraken) up.joined_fallback p

  abbrev pub or_fallback :
      ℕ
      → String
      → Upstream Amount
      → Option (CurrentData Amount) × Process r.Store
      → Option (CurrentData Amount) × Process r.Store
  or_fallback now currency up (some d, p) = (some d, p)
  or_fallback now currency up (none, p) = load_fallback now currency up p

  abbrev pub load_current :
      ℕ → String → Upstream Amount → Process r.Store → Option (CurrentData Amount) × Process r.Store
  load_current now currency up p =
      load r c flag now (current_key currency) market_cache_life_time up.coingecko up.joined p

  abbrev pub available : Option (CurrentData Amount) → Answer (CurrentData Amount)
  available none = unavailable "Market data is not available"
  available (some d) = ok d

  unfoldable pub get_current_data :
      ℕ → String → Upstream Amount → Process r.Store → Answer (CurrentData Amount) × Process r.Store
  get_current_data now currency up p =
      let (d, q) = or_fallback now currency up (load_current now currency up p) in (available d, q)

  abbrev or_unavailable : String → Option Amount → Answer Amount
  or_unavailable message none = unavailable message
  or_unavailable message (some a) = ok a

  abbrev field : (CurrentData Amount → Answer Amount) → Answer (CurrentData Amount) → Answer Amount
  field f (unavailable message) = unavailable message
  field f (ok d) = f d

  unfoldable pub get_current_price :
      ℕ → String → Upstream Amount → Process r.Store → Answer Amount × Process r.Store
  unfolding get_current_data
  get_current_price now currency up p =
      let (d, q) = get_current_data now currency up p in (field (λ d. ok d.price) d, q)

  unfoldable pub get_current_market_cap :
      ℕ → String → Upstream Amount → Process r.Store → Answer Amount × Process r.Store
  unfolding get_current_data
  get_current_market_cap now currency up p =
      let (d, q) = get_current_data now currency up p in
      (field (λ d. or_unavailable "Market cap is not available" d.market_cap) d, q)

  unfoldable pub get_current_volume :
      ℕ → String → Upstream Amount → Process r.Store → Answer Amount × Process r.Store
  unfolding get_current_data
  get_current_volume now currency up p =
      let (d, q) = get_current_data now currency up p in
      (field (λ d. or_unavailable "Volume is not available" d.volume) d, q)

market_tail :
    (a b : String) → Text.◌++◌ (Text.◌++◌ "market:" a) b ≡ Text.◌++◌ "market:" (Text.◌++◌ a b)
market_tail a b = append_assoc "market:" a b

current-ne-fallback :
    (a b : String) → Text.◌++◌ "market:current:" a ≢ Text.◌++◌ "market:fallback:" b
current-ne-fallback a b e =
    let tails =
      append_cancel_left "market:" (Text.◌++◌ "current:" a) (Text.◌++◌ "fallback:" b)
        (sym (market_tail "current:" a) ∙ e ∙ market_tail "fallback:" b) in
    let heads =
      head-eq_of_cons-eq
        (sym (cons-append "c" "urrent:" a) ∙ tails ∙ cons-append "f" "allback:" b) in
    absurd (omega (arith, ap code heads))

module _ (r : Redis) {A : Type 0} (c : Codec (MarketCacheEntry A)) (flag : Codec Bool) where
  -- A load touches no other key than its own and its marker's.
  load_start_frame :
      (now later ttl : ℕ) (key other : String) (p : Process r.Store)
      → key ≢ other
      → down_key key ≢ other
      → now ≤ later
      → r.get (load_start r c flag now key ttl p).1.store later (key_for other)
        ≡ r.get p.store later (key_for other)
  unfolding load_start
  load_start_frame now later ttl key other p ne ne' before = ground (
    arith,
    raw-get_ne r c now later key other p.store ne before,
    raw-get_ne r flag now later (down_key key) other (Cache.get r c now key p.store).1 ne' before,
  )

  load_finish_frame :
      (now later : ℕ) (key other : String) (cached : Option (MarketCacheEntry A))
      (outcome : Option A) (p : Process r.Store)
      → key ≢ other
      → down_key key ≢ other
      → now ≤ later
      → r.get (load_finish r c flag now key cached outcome p).1.store later (key_for other)
        ≡ r.get p.store later (key_for other)
  unfolding load_finish
  load_finish_frame now later key other cached (some v) p ne ne' before =
      raw-set_ne r c now later market_stale_life_time key other _ p.store ne before
  load_finish_frame now later key other cached none p ne ne' before =
      raw-set_ne r flag now later market_failure_life_time (down_key key) other true p.store ne'
        before

  settle_frame :
      (now later : ℕ) (key other : String) (outcome joined : Option A)
      (d : Decision A × Process r.Store)
      → key ≢ other
      → down_key key ≢ other
      → now ≤ later
      → r.get (settle r c flag now key outcome joined d).1.store later (key_for other)
        ≡ r.get d.1.store later (key_for other)
  settle_frame now later key other outcome joined (serve a, p) ne ne' before = refl
  settle_frame now later key other outcome joined (down, p) ne ne' before = refl
  settle_frame now later key other outcome joined (join q, p) ne ne' before = refl
  settle_frame now later key other outcome joined (fetch cached, p) ne ne' before =
      load_finish_frame now later key other cached outcome p ne ne' before

  pub load_frame :
      (now later ttl : ℕ) (key other : String) (outcome joined : Option A) (p : Process r.Store)
      → key ≢ other
      → down_key key ≢ other
      → now ≤ later
      → r.get (load r c flag now key ttl outcome joined p).1.store later (key_for other)
        ≡ r.get p.store later (key_for other)
  unfolding load
  load_frame now later ttl key other outcome joined p ne ne' before =
      settle_frame now later key other outcome joined (load_start r c flag now key ttl p) ne ne'
        before
      ∙ load_start_frame now later ttl key other p ne ne' before

down_fallback-ne-current : (a b : String) → down_key (fallback_key a) ≢ current_key b
down_fallback-ne-current a b e =
    current-ne-fallback b (Text.◌++◌ a ":down") (sym e ∙ append_assoc "market:fallback:" a ":down")

or_fallback_frame :
    (r : Redis) {Amount : Type 0} (c : Codec (MarketCacheEntry (CurrentData Amount)))
    (flag : Codec Bool) (now later : ℕ) (currency : String) (up : Upstream Amount)
    (d : Option (CurrentData Amount) × Process r.Store)
    → now ≤ later
    → r.get (or_fallback r c flag now currency up d).1.store later (key_for (current_key currency))
      ≡ r.get d.1.store later (key_for (current_key currency))
or_fallback_frame r c flag now later currency up (some d, q) before = refl
or_fallback_frame r c flag now later currency up (none, q) before =
    load_frame r c flag now later market_cache_life_time (fallback_key currency)
      (current_key currency) (Option.map (price_only r c flag) up.kraken) up.joined_fallback q
      (λ e. current-ne-fallback currency currency (sym e))
      (down_fallback-ne-current currency currency) before

-- Whatever the upstreams answer, the fallback to Kraken leaves the entry of CoinGecko's data as
-- CoinGecko's own load left it: at every later time it reads the same.
pub get_current_data-keeps :
    (r : Redis) {Amount : Type 0} (c : Codec (MarketCacheEntry (CurrentData Amount)))
    (flag : Codec Bool) (now later : ℕ) (currency : String) (up : Upstream Amount)
    (p : Process r.Store)
    → now ≤ later
    → r.get
        (get_current_data r c flag now currency up p).1.store
        later
        (key_for (current_key currency))
      ≡ r.get
          (load_current r c flag now currency up p).1.store
          later
          (key_for (current_key currency))
unfolding get_current_data
get_current_data-keeps r c flag now later currency up p before =
    or_fallback_frame r c flag now later currency up (load_current r c flag now currency up p)
      before
