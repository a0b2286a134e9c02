-- ===== src/Tests.antt =====
-- Tests on concrete inputs, over an environment in memory.
mod Memory
mod Sessions
mod Catalogue
mod Articles
mod Content
mod Urls
mod Api
mod Payloads
mod Clients
mod Seed
