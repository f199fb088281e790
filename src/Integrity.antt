-- ===== src/Integrity.antt =====
-- The rules on the relational state, for the operations of app/services/order_service.py and
-- app/services/payment_service.py and the report of scripts/verify_consistency.py.
pub mod Facts
pub mod Invariant
pub mod Ledger
pub mod Refinement
pub mod Settled
pub mod Seats
pub mod Charges
pub mod Pay
pub mod Sweep
pub mod Place
pub mod Services
pub mod History
pub mod Audit
