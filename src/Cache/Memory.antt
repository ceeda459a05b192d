-- ===== src/Cache/Memory.antt =====
-- A store that meets the laws of Redis: what each key reads as at each time.
use dashscan.Prelude.{ℕ, ◌+◌, String, Option, none, some, ltb, str_eq, if◌then◌else◌, refl}
use dashscan.Cache.{Redis}

abbrev pub Memory : Type 0
Memory = ℕ → String → Option String

abbrev kept : Option ℕ → ℕ → ℕ → String → Option String
kept none t now v = some v
kept (some px) t now v = if ltb now (t + px) then some v else none

abbrev pub memory : Redis
memory = record {
  Store = Memory;
  get = λ s t k. s t k;
  set = λ s t k v px. λ now j. if str_eq k j then kept px t now v else s now j;
  pexpire =
      λ s t k px. λ now j. if str_eq k j then if ltb now (t + px) then s t k else none else s now j;
  del = λ s t k. λ now j. if str_eq k j then none else s now j;
  get-set_px = λ s t t' k j v px h. refl;
  get-set_kept = λ s t t' k j v h. refl;
  get-pexpire = λ s t t' k j px h. refl;
  get-del = λ s t t' k j h. refl;
}
