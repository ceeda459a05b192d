-- ===== src/Cache.antt =====
-- api/src/cache.ts: the cache that the API instances share, over Redis and JSON, which are
-- third-party code and parameters here.
pub mod Laws
pub mod Memory
pub mod Texts
use dashscan.Prelude.{
  ℕ, zero, ◌+◌, ◌≤◌, ◌≡◌, Bool, true, false, String, Option, none, some, ltb, str_eq, if◌then◌else◌,
}
use Prim.Native.String as Text

-- A Redis server under its clock: each command is given the time at which it runs, in milliseconds.
-- An entry that has expired reads as absent. The laws are the documented behaviour of GET, SET with
-- and without PX, PEXPIRE and DEL.
pub record Redis : Type 1 where
  pub Store : Type 0
  pub get : Store → ℕ → String → Option String
  pub set : Store → ℕ → String → String → Option ℕ → Store
  pub pexpire : Store → ℕ → String → ℕ → Store
  pub del : Store → ℕ → String → Store
  pub get-set_px :
      (s : Store) (t t' : ℕ) (k j v : String) (px : ℕ)
      → t ≤ t'
      → get (set s t k v (some px)) t' j
        ≡ (if str_eq k j then if ltb t' (t + px) then some v else none else get s t' j)
  pub get-set_kept :
      (s : Store) (t t' : ℕ) (k j v : String)
      → t ≤ t'
      → get (set s t k v none) t' j ≡ (if str_eq k j then some v else get s t' j)
  pub get-pexpire :
      (s : Store) (t t' : ℕ) (k j : String) (px : ℕ)
      → t ≤ t'
      → get (pexpire s t k px) t' j
        ≡ (if str_eq k j then if ltb t' (t + px) then get s t k else none else get s t' j)
  pub get-del :
      (s : Store) (t t' : ℕ) (k j : String)
      → t ≤ t'
      → get (del s t k) t' j ≡ (if str_eq k j then none else get s t' j)

-- JSON at one type of values: `parse` throws on a text that it cannot read.
pub record Codec (A : Type 0) : Type 0 where
  pub stringify : A → String
  pub parse : String → Option A
  pub parse-stringify : (a : A) → parse (stringify a) ≡ some a

abbrev pub key_for : String → String
key_for key = Text.◌++◌ "cache:" key

module _ (r : Redis) where
  pub delete : ℕ → String → r.Store → r.Store
  delete now key s = r.del s now (key_for key)

  module _ {A : Type 0} (c : Codec A) where
    -- An entry that cannot be read is dropped.
    abbrev parsed : ℕ → String → r.Store → Option A → Option A × r.Store
    parsed now key s none = (none, r.del s now (key_for key))
    parsed now key s (some a) = (some a, s)

    unfoldable pub get : ℕ → String → r.Store → Option A × r.Store
    get now key s = elim (r.get s now (key_for key)) [
      | none ↦ (none, s)
      | some raw ↦ parsed now key s (c.parse raw)
    ]

    unfoldable pub set : ℕ → String → A → Option ℕ → r.Store → r.Store
    set now key value none s = r.set s now (key_for key) (c.stringify value) none
    set now key value (some ttl) s =
        if ltb 0 ttl
        then r.set s now (key_for key) (c.stringify value) (some ttl)
        else r.set s now (key_for key) (c.stringify value) none

  unfoldable pub touch : ℕ → String → ℕ → r.Store → r.Store
  touch now key ttl s = r.pexpire s now (key_for key) ttl
