-- ===== src/Tests.antt =====
-- The theorems at concrete inputs, by component.
mod Samples
mod Teams
mod Packages
mod Listings
mod References
mod Uploads
mod Versions
mod Records
mod Stores
mod Releases
mod Catalogs
mod Imports
