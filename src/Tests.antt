-- ===== src/Tests.antt =====
-- Sample stores and the theorems at concrete inputs.
mod Samples
mod OnStore
mod OnWire
mod OnScan
mod OnSql
mod OnServer
mod OnClient
mod OnProptests
