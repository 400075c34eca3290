-- ===== src/Tests.antt =====
-- Runs at concrete inputs, and the theorems at inputs that meet their hypotheses.
mod Orders
mod Amounts
mod Workers
mod Customers
mod Products
mod Access
mod Pages
mod Configs
mod Listings
mod Deliveries
mod Requests
mod Signups
mod Databases
mod Dates
mod Seeds
mod Lowers
