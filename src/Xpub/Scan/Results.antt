-- ===== src/Xpub/Scan/Results.antt =====
-- What `scanBranch` answers and what it writes to the cache, against the table alone.
use dashscan.Prelude.{
  ℕ, zero, suc, ◌+◌, ◌≤◌, ◌<◌, ◌≡◌, refl, ap, ◌∙◌, sym, false, Option, none, some, List, [], ◌∷◌,
  ◌++◌, append_assoc, append-nil, arith, is_some, if◌then◌else◌, or_else, length, tabulate, take,
  take-tabulate, String,
}
use dashscan.Prelude.Maps.{Dict, lookup, insert_all, insert_all-IsDistinct}
use dashscan.Xpub.{DerivedAddress, XpubBranchCache, ScannedBranch, xpub_max_addresses_per_branch}
use dashscan.Xpub.Scan.{
  Wallet, start, going, Answer, push_id, note_unused, report, final, scan_branch,
}
use dashscan.Xpub.Scan.Known.{stored, Agrees}
use dashscan.Xpub.Scan.Rounds.{walk, IsReady, scan_loop-eq-walk, scan_loop-stops}

-- An entry of the cache that this wallet may be answered from.
pub record IsValidCache (w : Wallet) (c : XpubBranchCache) : Type 0 where
  pub prefix : c.derived ≡ tabulate (length c.derived) 0 w.child
  pub agrees : Agrees w (insert_all [] c.ids)

abbrev pub IsValidRead : Wallet → Option XpubBranchCache → Type 0
IsValidRead w none = Unit
IsValidRead w (some c) = IsValidCache w c

-- The entry that the table gives at an index.
unfoldable pub entry : Wallet → ℕ → ℕ → DerivedAddress
entry w branch i = record {
  address = w.child i;
  branch = branch;
  index = i;
  used = is_some (stored w (w.child i));
  address_id = stored w (w.child i);
}

-- The ids of the used addresses among n indices, in order.
unfoldable pub used_ids : Wallet → ℕ → ℕ → List ℕ
used_ids w zero i = []
used_ids w (suc n) i = push_id (stored w (w.child i)) [] ++ used_ids w n (suc i)

-- The first unused one among n indices.
unfoldable pub first_unused_in : Wallet → ℕ → ℕ → Option ℕ
first_unused_in w zero i = none
first_unused_in w (suc n) i =
    if is_some (stored w (w.child i)) then first_unused_in w n (suc i) else some i

module _ (w : Wallet) where
  lookup-empty : (a : String) → lookup a (insert_all {V = ℕ} [] []) ≡ none
  unfolding lookup insert_all
  lookup-empty a = refl

  start-IsReady :
      (cached : Option XpubBranchCache)
      → IsValidRead w cached
      → {g : ℕ} → IsReady w g (start cached)
  start-IsReady none v = record {
    sound = record {
      prefix = refl;
      agrees = λ a id e. cc (lookup-empty a);
      distinct = insert_all-IsDistinct [] [] tt;
      checked = omega arith;
      confirmed = λ i h. absurd (omega arith);
    };
    walked = omega arith;
  }
  start-IsReady (some c) v = record {
    sound = record {
      prefix = v.prefix;
      agrees = v.agrees;
      distinct = insert_all-IsDistinct [] c.ids tt;
      checked = omega arith;
      confirmed = λ i h. absurd (omega arith);
    };
    walked = omega arith;
  }

  abbrev Covers : Dict ℕ → ℕ → ℕ → Type 0
  Covers known n index =
      (i : ℕ) → index ≤ i → i < index + n → lookup (w.child i) known ≡ stored w (w.child i)

  report_addresses :
      (known : Dict ℕ) (branch n index : ℕ) (acc : Answer)
      → Covers known n index
      → (report known branch index (tabulate n index w.child) acc).addresses
        ≡ acc.addresses ++ tabulate n index (entry w branch)
  unfolding report entry
  report_addresses known branch zero index acc h = sym (append-nil _)
  report_addresses known branch (suc n) index acc h =
      rw (h index (omega arith) (omega arith), report)
        (report_addresses known branch n (suc index) _ (λ i p q. h i (omega arith) (omega arith))
          ∙ append_assoc acc.addresses _ _)

  push_id-append : (o : Option ℕ) (xs ys : List ℕ) → push_id o xs ++ ys ≡ xs ++ (push_id o [] ++ ys)
  push_id-append none xs ys = refl
  push_id-append (some id) xs ys = append_assoc xs (id ∷ []) ys

  report_ids :
      (known : Dict ℕ) (branch n index : ℕ) (acc : Answer)
      → Covers known n index
      → (report known branch index (tabulate n index w.child) acc).address_ids
        ≡ acc.address_ids ++ used_ids w n index
  unfolding report used_ids
  report_ids known branch zero index acc h = sym (append-nil _)
  report_ids known branch (suc n) index acc h =
      rw (h index (omega arith) (omega arith), report)
        (report_ids known branch n (suc index) _ (λ i p q. h i (omega arith) (omega arith))
          ∙ push_id-append (stored w (w.child index)) acc.address_ids _)

  note_unused-or_else :
      (o : Option ℕ) (i : ℕ) (first later : Option ℕ)
      → or_else (note_unused o i first) later ≡ or_else first (if is_some o then later else some i)
  note_unused-or_else none i none later = refl
  note_unused-or_else none i (some k) later = refl
  note_unused-or_else (some id) i none later = refl
  note_unused-or_else (some id) i (some k) later = refl

  report_first :
      (known : Dict ℕ) (branch n index : ℕ) (acc : Answer)
      → Covers known n index
      → (report known branch index (tabulate n index w.child) acc).first_unused
        ≡ or_else acc.first_unused (first_unused_in w n index)
  unfolding report first_unused_in
  report_first known branch zero index acc h = ground arith
  report_first known branch (suc n) index acc h =
      rw (h index (omega arith) (omega arith), report)
        (report_first known branch n (suc index) _ (λ i p q. h i (omega arith) (omega arith))
          ∙ note_unused-or_else (stored w (w.child index)) index acc.first_unused _)

  -- The entries that the table alone gives for the first indices.
  abbrev pub expected : ℕ → ℕ → ScannedBranch
  expected branch end = record {
    branch = branch;
    addresses = tabulate end 0 (entry w branch);
    address_ids = used_ids w end 0;
    first_unused = first_unused_in w end 0;
  }

  module _ (cached : Option XpubBranchCache) (gap_limit : ℕ) (valid : IsValidRead w cached) where
    pub final-walk :
        ((final w cached gap_limit).scanned_to
          ≡ walk w gap_limit (suc xpub_max_addresses_per_branch) 0 0)
        × IsReady w gap_limit (final w cached gap_limit)
    unfolding final
    final-walk =
        scan_loop-eq-walk w gap_limit (suc xpub_max_addresses_per_branch) (start cached)
          (start-IsReady cached valid)

    unfoldable pub walk_end : ℕ
    walk_end = walk w gap_limit (suc xpub_max_addresses_per_branch) 0 0

    final_prefix :
        take (final w cached gap_limit).scanned_to (final w cached gap_limit).derived
        ≡ tabulate walk_end 0 w.child
    unfolding walk_end
    final_prefix =
        let (stop, ready) = final-walk in
        let s = final w cached gap_limit in
        ap (take s.scanned_to) ready.sound.prefix
        ∙ take-tabulate s.scanned_to (length s.derived) 0 w.child
            (omega (arith, ready.walked, ready.sound.checked))
        ∙ ap (λ k. tabulate k 0 w.child) stop

    final-Covers : Covers (final w cached gap_limit).known walk_end 0
    unfolding walk_end
    final-Covers i _ below =
        let (stop, ready) = final-walk in
        ready.sound.confirmed i (omega (arith, ready.walked, stop))

    pub scan_branch-answer :
        (branch : ℕ) → (scan_branch w branch cached gap_limit).0 ≡ expected branch walk_end
    unfolding scan_branch
    scan_branch-answer branch =
        let known = (final w cached gap_limit).known in
        let empty : Answer = record { addresses = []; address_ids = []; first_unused = none } in
        rw final_prefix (λ i. record {
          branch = branch;
          addresses = report_addresses known branch walk_end 0 empty final-Covers i;
          address_ids = report_ids known branch walk_end 0 empty final-Covers i;
          first_unused = report_first known branch walk_end 0 empty final-Covers i;
        })

    -- The loop of the scan ends by its own test, within the bound on its rounds.
    pub final-stops : going gap_limit (final w cached gap_limit) ≡ false
    unfolding final
    final-stops =
        scan_loop-stops w gap_limit (suc xpub_max_addresses_per_branch) (start cached)
          (start-IsReady cached valid) (omega arith)
