-- ===== src/Examples.antt =====
-- Concrete runs of the program, to which the theorems are applied.
mod Data
mod Reading
mod Alerts
mod Delivery
mod Checks
mod Limits
mod Passes
mod Grid
mod Prices
mod Watchers
mod Crawling
mod Keys
mod Entries
