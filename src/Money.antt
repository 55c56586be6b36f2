-- ===== src/Money.antt =====
-- pkg/money: displayed prices (money.go) and their conversion (rates.go).
pub mod Float
pub mod Price
pub mod Rates
