-- ===== src/ProtocolFee.antt =====
-- privacy/protocol-fee: the request, the quote and its cache, and what a fee makes an operation cost.
pub mod Request
pub mod Spend
pub mod Quote
pub mod Service
