-- ===== src/SaleAuth.antt =====
-- dapp/api/_lib/sale_auth.ts: the authorization of a sale.
pub mod Texts
pub mod Gate
pub mod Endpoint
pub mod Window
pub mod Safety
