-- ===== src/Oracle.antt =====
-- The oracle service, oracle/src: the trigger state machine between the settlement API, the
-- trigger table and the chain.
pub mod Types
pub mod Errors
pub mod Validator
pub mod Backoff
pub mod Table
pub mod Services
pub mod Manager
pub mod Requests
pub mod Controller
pub mod Worker
pub mod System
mod Tests
