-- ===== src/Tests.antt =====
-- Runs of the models on concrete inputs.
mod Limiter
mod Keys
mod Callers
mod Tokens
mod Requests
mod Settings
mod Migrations
mod Metrics
mod Start
mod Table
mod Provenance
mod Quota
