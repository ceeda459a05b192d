-- ===== src/Xpub/Resolve/Combined.antt =====
-- What a resolved key says of the whole account, through the summary that `getXpub` sends.
use mathlib.Core.Path.{ap₂}
use dashscan.Prelude.{
  ℕ, zero, suc, ◌+◌, ◌≤◌, ◌<◌, ◌≡◌, refl, ap, ◌∙◌, true, false, Option, none, some, [], ◌∷◌, arith,
  if◌then◌else◌, is_some, length, length-append, length-tabulate, Bool-cases, inl, inr, dec_lt,
}
use dashscan.Xpub.{ScannedBranch}
use dashscan.Xpub.Scan.{Wallet, scan_branch}
use dashscan.Xpub.Scan.Known.{stored}
use dashscan.Xpub.Scan.Rounds.{is_used}
use dashscan.Xpub.Scan.Results.{IsValidRead, entry, used_ids, first_unused_in, expected}
use dashscan.Xpub.Scan.GapLimit.{IsGapEnd, scan_branch-gap_limit}
use dashscan.Xpub.Resolve.{Account, XpubSummary, combine, scan_account, get_xpub}

-- The first unused index below e, if there is one.
abbrev pub IsFirstUnused : Wallet → ℕ → Option ℕ → Type 0
IsFirstUnused w e none = (j : ℕ) → j < e → is_used w j ≡ true
IsFirstUnused w e (some k) =
    (k < e) × (is_used w k ≡ false) × ((j : ℕ) → j < k → is_used w j ≡ true)

-- The number of used addresses below e.
unfoldable pub used_count : Wallet → ℕ → ℕ → ℕ
used_count w zero i = 0
used_count w (suc n) i = (if is_used w i then 1 else 0) + used_count w n (suc i)

length-used_ids : (w : Wallet) (n i : ℕ) → length (used_ids w n i) ≡ used_count w n i
unfolding used_ids used_count is_used
length-used_ids w zero i = refl
length-used_ids w (suc n) i = ground (arith, length-used_ids w n (suc i))

-- The same over a range that starts anywhere.
abbrev IsFirstFrom : Wallet → ℕ → ℕ → Option ℕ → Type 0
IsFirstFrom w n i none = (j : ℕ) → i ≤ j → j < i + n → is_used w j ≡ true
IsFirstFrom w n i (some k) =
    (i ≤ k) × (k < i + n) × (is_used w k ≡ false) × ((j : ℕ) → i ≤ j → j < k → is_used w j ≡ true)

IsFirstFrom-suc :
    (w : Wallet) (n i : ℕ) (o : Option ℕ)
    → is_used w i ≡ true
    → IsFirstFrom w n (suc i) o
    → IsFirstFrom w (suc n) i o
IsFirstFrom-suc w n i none u h = λ j p q. elim (dec_lt i j) [
  | yes later ↦ h j later (omega arith)
  | no here ↦ ap (is_used w) {x = j} {y = i} (omega arith) ∙ u
]
IsFirstFrom-suc w n i (some k) u h = (
  omega (arith, h.0),
  omega (arith, h.1),
  h.2,
  λ j p q. elim (dec_lt i j) [
    | yes later ↦ h.3 j later q
    | no here ↦ ap (is_used w) {x = j} {y = i} (omega arith) ∙ u
  ],
)

is_used-stored : (w : Wallet) (i : ℕ) → is_used w i ≡ is_some (stored w (w.child i))
unfolding is_used
is_used-stored w i = refl

first_unused_in-first : (w : Wallet) (n i : ℕ) → IsFirstFrom w n i (first_unused_in w n i)
unfolding first_unused_in
first_unused_in-first w zero i = λ j p q. absurd (omega arith)
first_unused_in-first w (suc n) i = elim (Bool-cases (is_some (stored w (w.child i)))) [
  | inl u ↦
      rw (u, first_unused_in)
        (IsFirstFrom-suc w n i _ (is_used-stored w i ∙ u) (first_unused_in-first w n (suc i)))
  | inr u ↦
      rw (u, first_unused_in)
        (omega arith, omega arith, is_used-stored w i ∙ u, λ j p q. absurd (omega arith))
]

IsFirstUnused-of_from :
    (w : Wallet) (e : ℕ) (o : Option ℕ) → IsFirstFrom w e 0 o → IsFirstUnused w e o
IsFirstUnused-of_from w e none h = λ j p. h j (omega arith) (omega arith)
IsFirstUnused-of_from w e (some k) h = (omega (arith, h.1), h.2, λ j p. h.3 j (omega arith) p)

first_unused_in-IsFirstUnused : (w : Wallet) (e : ℕ) → IsFirstUnused w e (first_unused_in w e 0)
first_unused_in-IsFirstUnused w e = IsFirstUnused-of_from w e _ (first_unused_in-first w e 0)

-- What the summary says of one branch.
pub record IsBranchEnd (w : Wallet) (gap_limit e : ℕ) (unused : Option ℕ) : Type 0 where
  pub gap : IsGapEnd w gap_limit e
  pub first : IsFirstUnused w e unused

get_xpub-two :
    (b c : ScannedBranch)
    → b.branch ≡ 0
    → c.branch ≡ 1
    → get_xpub
        (combine (record { addresses = []; address_ids = []; next_unused = [] }) (b ∷ c ∷ []))
      ≡ record {
        address_count = length b.addresses + length c.addresses;
        used_address_count = length b.address_ids + length c.address_ids;
        receive = b.first_unused;
        change = c.first_unused;
      }
unfolding get_xpub combine
get_xpub-two b c p q =
    ground (arith, length-append b.addresses c.addresses, length-append b.address_ids c.address_ids)

abbrev summary : Account → ℕ → ℕ → XpubSummary
summary a e f = record {
  address_count = e + f;
  used_address_count = used_count (a.wallet 0) e 0 + used_count (a.wallet 1) f 0;
  receive = first_unused_in (a.wallet 0) e 0;
  change = first_unused_in (a.wallet 1) f 0;
}

scan-summary :
    (a : Account) (gap_limit e f : ℕ)
    → (scan_branch (a.wallet 0) 0 (a.cached 0) gap_limit).0 ≡ expected (a.wallet 0) 0 e
    → (scan_branch (a.wallet 1) 1 (a.cached 1) gap_limit).0 ≡ expected (a.wallet 1) 1 f
    → get_xpub (scan_account a gap_limit) ≡ summary a e f
unfolding scan_account
scan-summary a gap_limit e f p q =
    ap₂
      (λ b c.
        get_xpub
          (combine (record { addresses = []; address_ids = []; next_unused = [] }) (b ∷ c ∷ [])))
      p q
    ∙ get_xpub-two (expected (a.wallet 0) 0 e) (expected (a.wallet 1) 1 f) refl refl
    ∙ ground (
      arith,
      length-tabulate e 0 (entry (a.wallet 0) 0),
      length-tabulate f 0 (entry (a.wallet 1) 1),
      length-used_ids (a.wallet 0) e 0,
      length-used_ids (a.wallet 1) f 0,
    )

-- For cached entries that agree with the tables and a positive gap limit: the summary counts the
-- addresses below the ends of the two branches and the used ones among them, and names the first
-- unused index of each branch below its end.
pub get_xpub-scan :
    (a : Account) (gap_limit : ℕ)
    → IsValidRead (a.wallet 0) (a.cached 0)
    → IsValidRead (a.wallet 1) (a.cached 1)
    → 0 < gap_limit
    → (e f : ℕ) × ((get_xpub (scan_account a gap_limit)).address_count ≡ e + f)
      × ((get_xpub (scan_account a gap_limit)).used_address_count
          ≡ used_count (a.wallet 0) e 0 + used_count (a.wallet 1) f 0)
      × IsBranchEnd (a.wallet 0) gap_limit e (get_xpub (scan_account a gap_limit)).receive
      × IsBranchEnd (a.wallet 1) gap_limit f (get_xpub (scan_account a gap_limit)).change
get_xpub-scan a gap_limit v0 v1 g =
    let (e, p, end) = scan_branch-gap_limit (a.wallet 0) 0 (a.cached 0) gap_limit v0 g in
    let (f, q, end') = scan_branch-gap_limit (a.wallet 1) 1 (a.cached 1) gap_limit v1 g in
    let same = scan-summary a gap_limit e f p q in
    (
      e,
      f,
      ap (λ s. s.address_count) same,
      ap (λ s. s.used_address_count) same,
      rw same (record { gap = end; first = first_unused_in-IsFirstUnused (a.wallet 0) e }),
      rw same (record { gap = end'; first = first_unused_in-IsFirstUnused (a.wallet 1) f }),
    )
