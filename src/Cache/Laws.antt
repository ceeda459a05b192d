-- ===== src/Cache/Laws.antt =====
-- What a value that was set reads as, later and under other keys.
use dashscan.Prelude.{
  ℕ, ◌+◌, ◌≤◌, ◌<◌, ◌≡◌, ◌≢◌, refl, String, some, false, arith, eq_iff, eq_refl, str_eq,
}
use text.Mathlib.TextLemmas.{append_cancel_left}
use dashscan.Cache.{Redis, Codec, key_for, get, set, touch}

key_for-injective : (k j : String) → key_for k ≡ key_for j → k ≡ j
key_for-injective k j h = append_cancel_left "cache:" k j h

pub str_eq-key_for : (k j : String) → k ≢ j → str_eq (key_for k) (key_for j) ≡ false
str_eq-key_for k j h = ground (arith, eq_iff (key_for k) (key_for j), key_for-injective k j)

module _ (r : Redis) {A : Type 0} (c : Codec A) where
  -- A read that finds nothing wrong leaves the store alone.
  pub get-eq_some :
      (now : ℕ) (key : String) (s : r.Store) (a : A)
      → r.get s now (key_for key) ≡ some (c.stringify a)
      → get r c now key s ≡ (some a, s)
  unfolding get
  get-eq_some now key s a h = rw (h, get) (rw (c.parse-stringify a) refl)

  pub raw-set :
      (t t' ttl : ℕ) (key : String) (a : A) (s : r.Store)
      → t ≤ t'
      → t' < t + ttl
      → r.get (set r c t key a (some ttl) s) t' (key_for key) ≡ some (c.stringify a)
  unfolding set
  raw-set t t' ttl key a s before within = ground (
    arith,
    r.get-set_px s t t' (key_for key) (key_for key) (c.stringify a) ttl before,
    eq_refl (key_for key),
  )

  -- Before it expires, an entry reads as what was set.
  pub get-set :
      (t t' ttl : ℕ) (key : String) (a : A) (s : r.Store)
      → t ≤ t'
      → t' < t + ttl
      → get r c t' key (set r c t key a (some ttl) s) ≡ (some a, set r c t key a (some ttl) s)
  get-set t t' ttl key a s before within =
      get-eq_some t' key (set r c t key a (some ttl) s) a (raw-set t t' ttl key a s before within)

  -- The other keys have what they had.
  pub raw-set_ne :
      (t t' ttl : ℕ) (key other : String) (a : A) (s : r.Store)
      → key ≢ other
      → t ≤ t'
      → r.get (set r c t key a (some ttl) s) t' (key_for other) ≡ r.get s t' (key_for other)
  unfolding set
  raw-set_ne t t' ttl key other a s ne before = ground (
    arith,
    str_eq-key_for key other ne,
    r.get-set_px s t t' (key_for key) (key_for other) (c.stringify a) ttl before,
    r.get-set_kept s t t' (key_for key) (key_for other) (c.stringify a) before,
  )

  pub raw-get_ne :
      (t t' : ℕ) (key other : String) (s : r.Store)
      → key ≢ other
      → t ≤ t'
      → r.get (get r c t key s).1 t' (key_for other) ≡ r.get s t' (key_for other)
  unfolding get
  raw-get_ne t t' key other s ne before =
      ground
        (arith, str_eq-key_for key other ne, r.get-del s t t' (key_for key) (key_for other) before)

  -- `touch` extends an entry, and does not make one.
  pub raw-touch :
      (t t' ttl : ℕ) (key : String) (s : r.Store)
      → t ≤ t'
      → t' < t + ttl
      → r.get (touch r t key ttl s) t' (key_for key) ≡ r.get s t (key_for key)
  unfolding touch
  raw-touch t t' ttl key s before within =
      ground
        (arith, r.get-pexpire s t t' (key_for key) (key_for key) ttl before, eq_refl (key_for key))
