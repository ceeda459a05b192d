-- ===== src/Models.antt =====
-- The rows of api/src/models and what they become: Transaction.ts with VIn.ts and VOut.ts here and in
-- the children, with `multisigAddresses` of api/src/utils.ts and api/src/enums/TransactionType.ts.
-- `null` and `undefined` are both `none`, since the constructors take `?? null` of what they are given.
-- The scripts and payloads are read by dash-core-sdk, which is a parameter.
pub mod Outputs
pub mod Transactions
mod Tests
