-- ===== src/Payments.antt =====
-- Payments of guests: provider webhooks, card and ERIP payments, and fiscalisation.
pub mod Fiscalization
pub mod Bepaid
pub mod Erip
pub mod Webhooks
pub mod Card
pub mod Invoice
pub mod Marked
