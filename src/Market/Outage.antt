-- ===== src/Market/Outage.antt =====
-- An outage of the upstream: how often the loads of one key ask it.
use dashscan.Prelude.{
  ℕ, ◌+◌, ◌≤◌, ◌<◌, ◌≡◌, ◌≢◌, ap, ◌∙◌, Bool, true, String, Option, none, some, List, [], ◌∷◌, arith,
  dec_lt, ◌⊎◌, inl, inr,
}
use Prim.Native.String as Text
use text.Mathlib.TextLemmas.{length-append}
use dashscan.Cache
use dashscan.Cache.{Redis, Codec, key_for}
use dashscan.Cache.Laws.{get-eq_some, raw-get_ne, raw-set}
use dashscan.Market.{
  MarketCacheEntry, Decision, serve, down, join, fetch, Process, serve_or, load_start, load_finish,
  down_key, market_failure_life_time,
}

-- Times from `low` on, each at least a marker's life after the one before.
abbrev pub IsSpaced : ℕ → List ℕ → Type 0
IsSpaced low [] = Unit
IsSpaced low (t ∷ ts) = (low ≤ t) × IsSpaced (t + market_failure_life_time) ts

-- Times that do not go back.
abbrev pub IsOrdered : ℕ → List ℕ → Type 0
IsOrdered from [] = Unit
IsOrdered from (t ∷ ts) = (from ≤ t) × IsOrdered t ts

down_key-ne : (key : String) → key ≢ down_key key
down_key-ne key e =
    let longer = length-append key ":down" in
    let same : Text.count key ≡ Text.count (down_key key) = ap Text.count e in
    absurd (omega (arith, longer, same))

module _ (r : Redis) {A : Type 0} (c : Codec (MarketCacheEntry A)) (flag : Codec Bool) where
  resume : ℕ → String → (Process r.Store → List ℕ) → Decision A × Process r.Store → List ℕ
  resume t key rest (fetch cached, p) = t ∷ rest (load_finish r c flag t key cached none p).1
  resume t key rest (serve a, p) = rest p
  resume t key rest (down, p) = rest p
  resume t key rest (join q, p) = rest p

  -- Loads of one key at the given times, while every fetch fails at once: the times of the fetches.
  unfoldable pub attempts : ℕ → String → List ℕ → Process r.Store → List ℕ
  unfolding resume
  attempts ttl key [] p = []
  attempts ttl key (t ∷ ts) p = resume t key (attempts ttl key ts) (load_start r c flag t key ttl p)

  -- The marker of the key reads as set at the times from `from` until `low`.
  abbrev IsMarked : String → ℕ → ℕ → Process r.Store → Type 0
  IsMarked key from low p =
      (t : ℕ)
      → from ≤ t
      → t < low
      → r.get p.store t (key_for (down_key key)) ≡ some (flag.stringify true)

  -- A start under a marker fetches nothing.
  abbrev IsQuiet : Decision A → Type 0
  IsQuiet (fetch cached) = ⊥
  IsQuiet d = Unit

  serve_or-IsQuiet : (cached : Option (MarketCacheEntry A)) → IsQuiet (serve_or down cached)
  serve_or-IsQuiet none = tt
  serve_or-IsQuiet (some e) = tt

  load_start-marked :
      (t ttl : ℕ) (key : String) (p : Process r.Store)
      → r.get p.store t (key_for (down_key key)) ≡ some (flag.stringify true)
      → load_start r c flag t key ttl p ≡ (
        serve_or down (Cache.get r c t key p.store).0,
        record p { store = (Cache.get r c t key p.store).1 },
      )
  unfolding load_start
  load_start-marked t ttl key p h =
      let store = (Cache.get r c t key p.store).1 in
      let kept = raw-get_ne r c t t key (down_key key) p.store (down_key-ne key) (omega arith) in
      let read = get-eq_some r flag t (down_key key) store true (kept ∙ h) in
      rw (read, load_start) (ground arith)

  load_start-IsMarked :
      (t ttl low : ℕ) (key : String) (p : Process r.Store)
      → IsMarked key t low p
      → t < low
      → IsMarked key t low (load_start r c flag t key ttl p).1
  load_start-IsMarked t ttl low key p h below =
      rw (load_start-marked t ttl key p (h t (omega arith) below))
        (λ u q k. raw-get_ne r c t u key (down_key key) p.store (down_key-ne key) q ∙ h u q k)

  load_start-IsQuiet :
      (t ttl low : ℕ) (key : String) (p : Process r.Store)
      → IsMarked key t low p
      → t < low
      → IsQuiet (load_start r c flag t key ttl p).0
  load_start-IsQuiet t ttl low key p h below =
      rw (load_start-marked t ttl key p (h t (omega arith) below)) (serve_or-IsQuiet _)

  load_finish-IsMarked :
      (t : ℕ) (key : String) (cached : Option (MarketCacheEntry A)) (p : Process r.Store)
      → IsMarked key t (t + market_failure_life_time) (load_finish r c flag t key cached none p).1
  unfolding load_finish
  load_finish-IsMarked t key cached p =
      λ u q k. raw-set r flag t u market_failure_life_time (down_key key) true p.store q k

  -- What the rest of the loads does, whichever way the first one goes.
  resume-IsSpaced :
      (t low : ℕ) (key : String) (rest : Process r.Store → List ℕ)
      → ((q : Process r.Store) (bound : ℕ) → IsMarked key t bound q → IsSpaced bound (rest q))
      → (d : Decision A × Process r.Store) → IsQuiet d.0 ⊎ (low ≤ t)
      → IsMarked key t low d.1
      → IsSpaced low (resume t key rest d)
  unfolding resume
  resume-IsSpaced t low key rest h (serve a, p) e m = h p low m
  resume-IsSpaced t low key rest h (down, p) e m = h p low m
  resume-IsSpaced t low key rest h (join q, p) e m = h p low m
  resume-IsSpaced t low key rest h (fetch cached, p) (inl quiet) m = absurd quiet
  resume-IsSpaced t low key rest h (fetch cached, p) (inr late) m =
      (late, h _ (t + market_failure_life_time) (load_finish-IsMarked t key cached p))

  attempts-IsSpaced' :
      (ttl from low : ℕ) (key : String) (ts : List ℕ) (p : Process r.Store)
      → IsOrdered from ts
      → IsMarked key from low p
      → IsSpaced low (attempts ttl key ts p)
  unfolding attempts
  attempts-IsSpaced' ttl from low key [] p o m = tt
  attempts-IsSpaced' ttl from low key (t ∷ ts) p (after, o) m =
      let rest = λ (q : Process r.Store) (bound : ℕ) (k : IsMarked key t bound q).
        attempts-IsSpaced' ttl t bound key ts q o k in
      let now : IsMarked key t low p = λ u q k. m u (omega arith) k in
      elim (dec_lt t low) [
        | yes early ↦
            resume-IsSpaced t low key (attempts ttl key ts) rest (load_start r c flag t key ttl p)
              (inl (load_start-IsQuiet t ttl low key p now early))
              (load_start-IsMarked t ttl low key p now early)
        | no late ↦
            resume-IsSpaced t low key (attempts ttl key ts) rest (load_start r c flag t key ttl p)
              (inr (omega arith)) (λ u q k. absurd (omega arith))
      ]

-- From any state, loads of one key at times that do not go back, whose fetches all fail at once, ask
-- the upstream at times at least a minute apart, however many loads there are.
pub attempts-IsSpaced :
    (r : Redis) {A : Type 0} (c : Codec (MarketCacheEntry A)) (flag : Codec Bool) (ttl : ℕ)
    (key : String) (ts : List ℕ) (p : Process r.Store)
    → IsOrdered 0 ts
    → IsSpaced 0 (attempts r c flag ttl key ts p)
attempts-IsSpaced r c flag ttl key ts p o =
    attempts-IsSpaced' r c flag ttl 0 0 key ts p o (λ t q k. absurd (omega arith))
