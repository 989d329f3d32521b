-- ===== src/Examples.antt =====
-- Runs of the model at concrete inputs.
mod Jobs
mod Arbitrations
mod Searches
mod Candidates
mod Migrations
mod Durations
mod Releases
mod Uploads
mod Plans
mod SignIns
mod Stores
mod Leases
mod Acquisition
mod Winners
mod Settings
mod Effects
mod Offers
mod Cycles
mod Service
