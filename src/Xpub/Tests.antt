-- ===== src/Xpub/Tests.antt =====
-- The theorems on derivation and on resolved keys, at small inputs.
use dashscan.Prelude.{ℕ, ◌+◌, ◌≡◌, refl, ◌==◌, if◌then◌else◌, none, some, [], ◌∷◌, arith, tabulate}
use dashscan.Prelude.Maps.{lookup, IsDistinct}
use dashscan.Xpub.Derive.{
  Curve, child_at, child_public_key, derive, child_public_key-least, derive-eq-tabulate,
}
use dashscan.Xpub.Resolve.{Account, scan_account, get_xpub}
use dashscan.Xpub.Resolve.Combined.{used_count, IsBranchEnd, get_xpub-scan}
use dashscan.Xpub.Resolve.InFlight.{
  Service, idle, resolve, Reach, here, next, request, resolve-shares,
}

-- Points are numbers; the tweak of index 1 is out of range.
abbrev numbers : Curve
numbers = record {
  Point = ℕ;
  point = 7;
  tweak = λ i. if i == 1 then none else some i;
  add_base = λ t. 7 + t;
  is_zero = λ p. p == 0;
  address = λ p. if p == 7 then "XA" else if p == 9 then "XB" else "XC";
}

child_public_key-least_example : child_public_key numbers 5 1 ≡ some 9
unfolding child_at
child_public_key-least_example =
    child_public_key-least numbers 5 1 2 9 (omega arith) (omega arith) (λ k p q. ground arith) refl

derive-eq-tabulate_example :
    derive numbers 5 2 2 ≡ some (tabulate 2 2 (λ k. numbers.address (7 + k)))
unfolding child_public_key child_at
derive-eq-tabulate_example = derive-eq-tabulate numbers 5 2 2 (λ k. 7 + k) (λ k p q. ground arith)

abbrev account : Account
account = record {
  wallet = λ b. record {
    child = λ i. if i == 0 then "XA" else "XB";
    rows = if b == 0 then ("XA", 4) ∷ [] else [];
  };
  cached = λ b. none;
}

get_xpub-scan_example :
    (e f : ℕ) × ((get_xpub (scan_account account 20)).address_count ≡ e + f)
    × ((get_xpub (scan_account account 20)).used_address_count
        ≡ used_count (account.wallet 0) e 0 + used_count (account.wallet 1) f 0)
    × IsBranchEnd (account.wallet 0) 20 e (get_xpub (scan_account account 20)).receive
    × IsBranchEnd (account.wallet 1) 20 f (get_xpub (scan_account account 20)).change
get_xpub-scan_example = get_xpub-scan account 20 tt tt (omega arith)

abbrev one_scan : Service
one_scan = (resolve "key:20" idle).1

one_scan_reached : Reach idle one_scan
one_scan_reached = next here (request idle "key:20")

resolve-shares_example :
    IsDistinct (resolve "key:20" one_scan).1.running
    × (lookup "key:20" (resolve "key:20" one_scan).1.running ≡ some (resolve "key:20" one_scan).0)
    × ((q : ℕ)
        → lookup "key:20" one_scan.running ≡ some q
        → (resolve "key:20" one_scan).1 ≡ one_scan)
resolve-shares_example = resolve-shares one_scan "key:20" one_scan_reached
