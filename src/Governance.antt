-- ===== src/Governance.antt =====
-- api/src/dao/GovernanceDAO.ts and api/src/controllers/GovernanceController.ts: the votes on a
-- proposal, and what the budget pays for.
pub mod Votes
pub mod Series
pub mod Outpoints
pub mod Proposals
pub mod Detail
pub mod Controller
pub mod Budget
mod Tests
