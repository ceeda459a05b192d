-- ===== src/Addresses.antt =====
-- api/src/dao/AddressesDAO.ts and api/src/controllers/AddressesController.ts: the windows of
-- `getAddressesActivity` in a child, and `getAddressBalanceSeries` in another.
pub mod Activity
pub mod Balance
mod Tests
