-- ===== src/Xpub/Resolve/InFlight.antt =====
-- `resolve` of api/src/services/XpubService.ts: concurrent requests for one key share a scan. The
-- event loop runs one piece at a time: a call of `resolve`, or the `finally` of a scan that ended.
use dashscan.Prelude.{
  ℕ, suc, sym, subst, ◌+◌, ◌≤◌, ◌<◌, ◌≡◌, refl, ap, ◌∙◌, String, none, some, [], ◌∷◌, ◌++◌, arith,
  ◌==◌, str_eq, if◌then◌else◌, eq_iff, eq_refl, Option-cases, inl, inr, Bool-cases, All,
}
use dashscan.Prelude.Maps.{Dict, lookup, insert, remove, lookup-insert, lookup-remove, IsDistinct}

-- The map of the service, and the scans that run: each with the key it was started for. A promise
-- is the number of its scan.
pub record Service : Type 0 where
  pub in_flight : Dict ℕ
  pub running : Dict ℕ
  pub started : ℕ

-- `resolve` at a key: the promise that the caller gets, and the service after it.
unfoldable pub resolve : String → Service → ℕ × Service
resolve key s = elim (lookup key s.in_flight) [
  | some running ↦ (running, s)
  | none ↦ (
    s.started,
    record {
      in_flight = insert key s.started s.in_flight;
      running = s.running ++ (key, s.started) ∷ [];
      started = s.started + 1;
    },
  )
]

-- Scan p, started for `key`, is over: it no longer runs, and `finally` deletes the key.
unfoldable pub without : ℕ → Dict ℕ → Dict ℕ
without p [] = []
without p ((k, q) ∷ scans) = if q == p then without p scans else (k, q) ∷ without p scans

unfoldable pub settle : String → ℕ → Service → Service
unfolding without
settle key p s = record s { in_flight = remove key s.in_flight; running = without p s.running }

abbrev pub idle : Service
idle = record { in_flight = []; running = []; started = 0 }

pub data Step : Service → Service → Type 0 where
  request : (s : Service) (key : String) → Step s (resolve key s).1
  finish :
      (s : Service) (key : String) (p : ℕ) → lookup key s.running ≡ some p → Step s (settle key p s)

pub data Reach (s : Service) : Service → Type 0 where
  here : Reach s s
  next : {t u : Service} → Reach s t → Step t u → Reach s u

-- Promises from `low` on, in the order of their scans.
abbrev IsAscending : ℕ → Dict ℕ → Type 0
IsAscending low [] = Unit
IsAscending low ((k, p) ∷ m) = (low ≤ p) × IsAscending (suc p) m

-- The map holds exactly the scans that run, no key is scanned twice at once, promises are fresh.
pub record IsPaired (s : Service) : Type 0 where
  pub same : s.in_flight ≡ s.running
  pub distinct : IsDistinct s.running
  pub ascending : IsAscending 0 s.running
  pub fresh : All (λ r. r.1 < s.started) s.running

insert_new : (k : String) (v : ℕ) (m : Dict ℕ) → lookup k m ≡ none → insert k v m ≡ m ++ (k, v) ∷ []
unfolding insert lookup
insert_new k v [] h = refl
insert_new k v ((j, w) ∷ m) h = ground (arith, insert_new k v m)

lookup-concat :
    (k j : String) (v : ℕ) (m : Dict ℕ)
    → lookup k m ≡ none
    → lookup j (m ++ (k, v) ∷ []) ≡ (if str_eq k j then some v else lookup j m)
lookup-concat k j v m h = ap (lookup j) (sym (insert_new k v m h)) ∙ lookup-insert k j v m

concat-IsDistinct :
    (k : String) (v : ℕ) (m : Dict ℕ)
    → lookup k m ≡ none
    → IsDistinct m
    → IsDistinct (m ++ (k, v) ∷ [])
unfolding lookup
concat-IsDistinct k v [] h d = (refl, tt)
concat-IsDistinct k v ((j, w) ∷ m) h d =
    ground (arith, concat-IsDistinct k v m, lookup-concat k j v m, eq_iff k j, eq_iff j k)

concat-IsAscending :
    (low n : ℕ) (k : String) (m : Dict ℕ)
    → low ≤ n
    → All (λ r. r.1 < n) m
    → IsAscending low m
    → IsAscending low (m ++ (k, n) ∷ [])
concat-IsAscending low n k [] b f h = (b, tt)
concat-IsAscending low n k ((j, p) ∷ m) b f h = (h.0, concat-IsAscending (suc p) n k m f.0 f.1 h.1)

concat-fresh :
    (n : ℕ) (k : String) (m : Dict ℕ)
    → All (λ r. r.1 < n) m
    → All (λ r. r.1 < n + 1) (m ++ (k, n) ∷ [])
concat-fresh n k [] f = (omega arith, tt)
concat-fresh n k ((j, p) ∷ m) f = (omega (arith, f.0), concat-fresh n k m f.1)

without-fresh : (n p : ℕ) (m : Dict ℕ) → All (λ r. r.1 < n) m → All (λ r. r.1 < n) (without p m)
unfolding without
without-fresh n p [] f = tt
without-fresh n p ((k, q) ∷ m) f = ground (arith, without-fresh n p m f.1)

IsAscending-mono : (low high : ℕ) (m : Dict ℕ) → low ≤ high → IsAscending high m → IsAscending low m
IsAscending-mono low high [] b h = tt
IsAscending-mono low high ((k, p) ∷ m) b h = (omega (arith, h.0), h.1)

without-IsAscending : (low p : ℕ) (m : Dict ℕ) → IsAscending low m → IsAscending low (without p m)
unfolding without
without-IsAscending low p [] h = tt
without-IsAscending low p ((k, q) ∷ m) h =
    let rest = without-IsAscending (suc q) p m h.1 in
    elim (Bool-cases (q == p)) [
      | inl e ↦ rw (e, without) (IsAscending-mono low (suc q) _ (omega (arith, h.0)) rest)
      | inr e ↦ rw (e, without) (h.0, rest)
    ]

without_absent : (p : ℕ) (m : Dict ℕ) → IsAscending (suc p) m → without p m ≡ m
unfolding without
without_absent p [] h = refl
without_absent p ((k, q) ∷ m) h =
    ground (arith, without_absent p m (IsAscending-mono (suc p) (suc q) m (omega (arith, h.0)) h.1))

remove_absent : (k : String) (m : Dict ℕ) → lookup k m ≡ none → remove k m ≡ m
unfolding remove lookup
remove_absent k [] h = refl
remove_absent k ((j, v) ∷ m) h = ground (arith, remove_absent k m)

lookup-IsAscending :
    (low p : ℕ) (k : String) (m : Dict ℕ) → IsAscending low m → lookup k m ≡ some p → low ≤ p
unfolding lookup
lookup-IsAscending low p k [] h e = cc
lookup-IsAscending low p k ((j, q) ∷ m) h e = ground (arith, lookup-IsAscending (suc q) p k m h.1)

-- The key that `finally` deletes is that of the scan that ended, and of no other.
remove-eq-without :
    (low p : ℕ) (k : String) (m : Dict ℕ)
    → IsAscending low m
    → IsDistinct m
    → lookup k m ≡ some p
    → remove k m ≡ without p m
unfolding remove without lookup
remove-eq-without low p k [] h d e = cc
remove-eq-without low p k ((j, q) ∷ m) h d e = ground (
  arith,
  eq_iff j k,
  remove_absent k m,
  without_absent p m,
  remove-eq-without (suc q) p k m h.1 d.1,
  lookup-IsAscending (suc q) p k m h.1,
)

remove-IsDistinct : (k : String) (m : Dict ℕ) → IsDistinct m → IsDistinct (remove k m)
unfolding remove
remove-IsDistinct k [] d = tt
remove-IsDistinct k ((j, v) ∷ m) d =
    ground (arith, remove-IsDistinct k m d.1, lookup-remove k j m, eq_iff k j)

resolve-IsPaired : (key : String) (s : Service) → IsPaired s → IsPaired (resolve key s).1
unfolding resolve
resolve-IsPaired key s h = elim (Option-cases (lookup key s.in_flight)) [
  | inr (p, running) ↦ rw (running, resolve) h
  | inl free ↦
      let absent : lookup key s.running ≡ none = rw (← h.same) free in
      rw (free, resolve)
        (record {
          same =
              insert_new key s.started s.in_flight free
              ∙ ap (λ m. m ++ (key, s.started) ∷ []) h.same;
          distinct = concat-IsDistinct key s.started s.running absent h.distinct;
          ascending =
              concat-IsAscending 0 s.started key s.running (omega arith) h.fresh h.ascending;
          fresh = concat-fresh s.started key s.running h.fresh;
        })
]

settle-IsPaired :
    (key : String) (p : ℕ) (s : Service)
    → lookup key s.running ≡ some p
    → IsPaired s
    → IsPaired (settle key p s)
unfolding settle
settle-IsPaired key p s e h =
    let same = remove-eq-without 0 p key s.running h.ascending h.distinct e in
    record {
      same = ap (remove key) h.same ∙ same;
      distinct = subst IsDistinct same (remove-IsDistinct key s.running h.distinct);
      ascending = without-IsAscending 0 p s.running h.ascending;
      fresh = without-fresh s.started p s.running h.fresh;
    }

Step-IsPaired : {s t : Service} → Step s t → IsPaired s → IsPaired t
Step-IsPaired (request s key) h = resolve-IsPaired key s h
Step-IsPaired (finish s key p e) h = settle-IsPaired key p s e h

Reach-IsPaired : {s : Service} → Reach idle s → IsPaired s
Reach-IsPaired here = record { same = refl; distinct = tt; ascending = tt; fresh = tt }
Reach-IsPaired (next r st) = Step-IsPaired st (Reach-IsPaired r)

resolve-runs :
    (key : String) (s : Service)
    → s.in_flight ≡ s.running
    → lookup key (resolve key s).1.running ≡ some (resolve key s).0
unfolding resolve
resolve-runs key s same = elim (Option-cases (lookup key s.in_flight)) [
  | inr (p, running) ↦ rw (running, resolve) (rw (← same) running)
  | inl free ↦
      let absent : lookup key s.running ≡ none = rw (← same) free in
      rw (free, resolve)
        (ground (arith, lookup-concat key key s.started s.running absent, eq_refl key))
]

resolve-joins :
    (key : String) (q : ℕ) (s : Service)
    → s.in_flight ≡ s.running
    → lookup key s.running ≡ some q
    → (resolve key s).1 ≡ s
unfolding resolve
resolve-joins key q s same e =
    let running : lookup key s.in_flight ≡ some q = rw same e in rw (running, resolve) refl

-- After any calls and endings, in any order, a call of `resolve` leaves at most one scan running for
-- each key; its caller gets the promise of the scan that runs for its key, and if one ran already
-- nothing is started.
pub resolve-shares :
    (s : Service) (key : String)
    → Reach idle s
    → IsDistinct (resolve key s).1.running
      × (lookup key (resolve key s).1.running ≡ some (resolve key s).0)
      × ((q : ℕ) → lookup key s.running ≡ some q → (resolve key s).1 ≡ s)
unfolding resolve
resolve-shares s key r =
    let h = Reach-IsPaired r in
    (
      (resolve-IsPaired key s h).distinct,
      resolve-runs key s h.same,
      λ q e. resolve-joins key q s h.same e,
    )
