-- ===== src/Paging.antt =====
-- api/src/models/PaginatedResultSet.ts and the two places that slice a list into pages: `paginate` of
-- api/src/dao/PeersDAO.ts and `getXpubAddresses` of api/src/controllers/XpubController.ts. Pages are
-- numbered from 1, which the schemas check.
pub mod Whole
pub mod Bar
pub mod Count
mod Tests
use dashscan.Prelude.{
  ℕ, zero, suc, ◌+◌, ◌-◌, ◌*◌, Option, none, some, List, [], ◌∷◌, ◌++◌, map, length, slice, ltb,
  if◌then◌else◌, ℤ, pos, negsuc,
}

pub record PaginatedResultSet {ℓ} (A : Type ℓ) : Type ℓ where
  pub result_set : List A
  pub page : ℕ
  pub limit : ℕ
  pub total : ℤ

module _ {ℓ} {A : Type ℓ} where
  -- The constructor: an empty result tells no total, but -1.
  abbrev pub paginated : List A → ℕ → ℕ → ℕ → PaginatedResultSet A
  paginated items page limit total = record {
    result_set = items;
    page = page;
    limit = limit;
    total = if ltb 0 (length items) then pos total else negsuc 0;
  }

  unfoldable pub paginate : List A → ℕ → Option ℕ → PaginatedResultSet A
  paginate items page none = paginated items page (length items) (length items)
  paginate items page (some limit) =
      paginated (slice ((page - 1) * limit) (page * limit) items) page limit (length items)

  -- The same in getXpubAddresses, over the addresses of a resolved key.
  unfoldable pub page_from : List A → ℕ → ℕ → PaginatedResultSet A
  page_from addresses page limit =
      let from = (page - 1) * limit in
      paginated (slice from (from + limit) addresses) page limit (length addresses)
