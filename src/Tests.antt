-- ===== src/Tests.antt =====
-- Runs of the development on a small organisation.
mod Sample
mod Requests
mod Rights
mod Dwelling
mod Tokens
mod Notices
mod Homes
mod Gates
mod Sockets
