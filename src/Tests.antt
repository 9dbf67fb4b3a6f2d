-- ===== src/Tests.antt =====
-- Runs of the store on small inputs, and the properties of it at one store of two items.
mod Fixture
mod Keys
mod Runs
mod Reads
mod Writes
mod Parts
mod Sessions
mod Dicts
mod Printing
mod Tools
mod Bindings
mod Windows
