-- ===== src/Tests.antt =====
-- The model at concrete data: a small site, and the theorems at it.
mod Fixtures
mod Storage
mod Files
mod Found
mod Admin
mod Client
mod Server
mod Tls
mod Threads
mod Outage
mod Keys
mod Encoding
mod Commands
mod Uploads
mod Domains
mod Restarts
mod Requests
mod Listing
