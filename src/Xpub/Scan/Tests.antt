-- ===== src/Xpub/Scan/Tests.antt =====
-- Runs of the scan, and the theorems at a small wallet.
use dashscan.Prelude.{ℕ, ◌≡◌, refl, ◌==◌, if◌then◌else◌, false, none, some, [], ◌∷◌, String, arith}
use dashscan.Prelude.Maps.{lookup, insert, insert_all}
use dashscan.Xpub.Scan.{
  Wallet, going, final, scan_branch, round, confirm_up_to, confirm_batch, extend, scan_loop,
  lookup_ids, visit,
}
use dashscan.Xpub.Scan.Known.{stored}
use dashscan.Xpub.Scan.Results.{expected, final-stops}
use dashscan.Xpub.Scan.GapLimit.{IsGapEnd, scan_branch-gap_limit}
use dashscan.Xpub.Scan.Caching.{
  World, Reach, here, next, scan, index, apply_write, reached-gap_limit,
}

abbrev name : ℕ → String
name i = if i == 0 then "XA" else if i == 1 then "XB" else if i == 2 then "XC" else "XD"

abbrev small : Wallet
small = record { child = name; rows = ("XB", 7) ∷ ("other", 8) ∷ [] }

runs : Unit {0}
unfolding scan_branch scan_loop round confirm_up_to confirm_batch extend lookup_ids visit lookup
    insert insert_all
runs = tt

small_scan : (scan_branch small 0 none 2).0.address_ids ≡ 7 ∷ []
unfolding runs
small_scan = refl

small_first_unused : (scan_branch small 0 none 2).0.first_unused ≡ some 0
unfolding runs
small_first_unused = refl

small_end : (final small none 2).scanned_to ≡ 4
unfolding runs final
small_end = refl

abbrev scanned : World
scanned = record { wallet = small; cached = apply_write (scan_branch small 0 none 2).1 none }

abbrev grown : World
grown = record scanned {
  wallet = record small { rows = ("XB", 7) ∷ ("other", 8) ∷ ("XD", 9) ∷ [] };
}

grown_reached : Reach (record { wallet = small; cached = none }) grown
unfolding stored lookup insert insert_all
grown_reached = next (next here (scan _ 0 2)) (index scanned "XD" 9 refl)

scan_branch-gap_limit_example :
    (e : ℕ) × ((scan_branch small 0 none 2).0 ≡ expected small 0 e) × IsGapEnd small 2 e
scan_branch-gap_limit_example = scan_branch-gap_limit small 0 none 2 tt (omega arith)

reached-gap_limit_example :
    (e : ℕ) × ((scan_branch grown.wallet 0 grown.cached 5).0 ≡ expected grown.wallet 0 e)
    × IsGapEnd grown.wallet 5 e
reached-gap_limit_example = reached-gap_limit small grown 0 5 grown_reached (omega arith)

final-stops_example : going 2 (final small none 2) ≡ false
final-stops_example = final-stops small none 2 tt
