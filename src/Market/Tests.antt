-- ===== src/Market/Tests.antt =====
-- The theorems on market data, at small inputs, over a store in memory.
use dashscan.Prelude.{
  ◌*◌, ℕ, ◌+◌, ◌*◌, ◌/◌, ◌%◌, ◌<◌, ◌≡◌, refl, ap, ◌∙◌, ◌==◌, if◌then◌else◌, Bool, true, false,
  Option, none, some, List, [], ◌∷◌, arith,
}
use Prim.Native.String as Text
use dashscan.Cache.Texts.{strokes, count-strokes}
use dashscan.Cache.{Codec, key_for}
use dashscan.Cache.Memory.{Memory, memory}
use dashscan.Market.{MarketCacheEntry, Process, serve, load, load_start, load_finish}
use dashscan.Market.Current.{
  CurrentData, Upstream, get_current_data, load_current, current_key, get_current_data-keeps,
}
use dashscan.Market.Freshness.{load-after_success}
use dashscan.Market.Hourly.{
  compact_to_hourly, IsHourly, value_at, last_in, last_of_hour, compact_to_hourly_lem,
}
use dashscan.Market.Outage.{attempts, IsSpaced, attempts-IsSpaced}

-- Values that numbers stand for.
abbrev numbered :
    {A : Type 0} (to : A → ℕ) (of : ℕ → Option A) → ((a : A) → of (to a) ≡ some a) → Codec A
numbered to of h = record {
  stringify = λ a. strokes (to a);
  parse = λ s. of (Text.count s);
  parse-stringify = λ a. ap of (count-strokes (to a)) ∙ h a;
}

abbrev flag_code : Bool → ℕ
flag_code true = 1
flag_code false = 0

pub flag_round : (b : Bool) → some (flag_code b == 1) ≡ some b
flag_round true = refl
flag_round false = refl

abbrev pub flag : Codec Bool
flag = numbered flag_code (λ n. some (n == 1)) flag_round

-- Data with one amount only: what stands for them is which of the two are there.
abbrev Data : Type 0
Data = CurrentData Unit

abbrev there : Option {0} Unit → ℕ
there none = 0
there (some u) = 1

abbrev from_bit : ℕ → Option {0} Unit
from_bit n = if n == 0 then none else some tt

abbrev entry_code : MarketCacheEntry Data → ℕ
entry_code e = e.fetched_at * 4 + (there e.value.market_cap * 2 + there e.value.volume)

abbrev entry_of : ℕ → Option (MarketCacheEntry Data)
entry_of n = some (record {
  value = record { price = tt; market_cap = from_bit (n / 2 % 2); volume = from_bit (n % 2) };
  fetched_at = n / 4;
})

from_bit-there : (o : Option {0} Unit) (n : ℕ) → n ≡ there o → from_bit n ≡ o
from_bit-there none n h = ground arith
from_bit-there (some u) n h = ground arith

there_small : (o : Option {0} Unit) → there o < 2
there_small none = omega arith
there_small (some u) = omega arith

entry_round : (e : MarketCacheEntry Data) → entry_of (entry_code e) ≡ some e
entry_round e =
    let a = there_small e.value.market_cap in
    let b = there_small e.value.volume in
    let cap = from_bit-there e.value.market_cap (entry_code e / 2 % 2) (omega (arith, a, b)) in
    let volume = from_bit-there e.value.volume (entry_code e % 2) (omega (arith, a, b)) in
    let time : entry_code e / 4 ≡ e.fetched_at = omega (arith, a, b) in rw (cap, volume, time) refl

abbrev codec : Codec (MarketCacheEntry Data)
codec = numbered entry_code entry_of entry_round

abbrev pub idle : Process Memory
idle = record { store = λ t k. none; in_flight = []; started = 0 }

abbrev quote : Data
quote = record { price = tt; market_cap = some tt; volume = none }

load-after_success_example :
    ((load memory codec flag 5000 "k" 3000 none none
        (load_finish memory codec flag 1000 "k" none (some quote) idle).1).0
      ≡ some quote)
    × (5000 < 1000 + 3000
        → load_start memory codec flag 5000 "k" 3000
            (load_finish memory codec flag 1000 "k" none (some quote) idle).1
          ≡ (serve quote, (load_finish memory codec flag 1000 "k" none (some quote) idle).1))
load-after_success_example =
    load-after_success memory codec flag 1000 5000 3000 "k" none quote none idle (omega arith)
      (omega arith)

attempts-IsSpaced_example :
    IsSpaced 0 (attempts memory codec flag 3000 "k" (0 ∷ 500 ∷ 59999 ∷ 60000 ∷ []) idle)
attempts-IsSpaced_example =
    attempts-IsSpaced memory codec flag 3000 "k" (0 ∷ 500 ∷ 59999 ∷ 60000 ∷ []) idle
      (omega arith, (omega arith, (omega arith, (omega arith, tt))))

abbrev outage : Upstream Unit
outage = record { coingecko = none; kraken = some tt; joined = none; joined_fallback = none }

get_current_data-keeps_example :
    memory.get
      (get_current_data memory codec flag 1000 "usd" outage idle).1.store
      2000
      (key_for (current_key "usd"))
    ≡ memory.get
        (load_current memory codec flag 1000 "usd" outage idle).1.store
        2000
        (key_for (current_key "usd"))
get_current_data-keeps_example =
    get_current_data-keeps memory codec flag 1000 2000 "usd" outage idle (omega arith)

abbrev points : List (ℕ × ℕ)
points = (3600000, 7) ∷ (3700000, 8) ∷ (10, 9) ∷ []

compact_to_hourly_lem_example :
    IsHourly 0 (compact_to_hourly points)
    × ((hour : ℕ)
        → value_at (hour * 3600) (compact_to_hourly points) ≡ last_of_hour hour points none)
    × ((k : ℕ) → value_at k (compact_to_hourly points) ≡ last_in k points none)
compact_to_hourly_lem_example = compact_to_hourly_lem points
