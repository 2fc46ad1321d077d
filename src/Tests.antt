-- ===== src/Tests.antt =====
-- Runs of the modelled code on concrete inputs, and its theorems at inputs of that kind.
mod Scans
mod Calm
mod Reports
mod Environment
mod Chain
mod Accounts
mod Hub
mod Files
mod Forms
mod Pages
mod Measured
