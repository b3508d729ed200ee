-- ===== src/Treasury.antt =====
-- treasury/src: the ledger of released fees, and the payout of each of its entries.
pub mod Payout
pub mod Ledger
pub mod Ingestion
pub mod Controller
mod Tests
