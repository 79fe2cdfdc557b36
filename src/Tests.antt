-- ===== src/Tests.antt =====
-- Concrete states and runs: a database that meets the assumptions on it, and each theorem applied
-- to an input that meets its hypotheses.
mod Fixtures
mod Dispatching
mod Requests
mod Indexing
mod Listing
mod Watching
mod Reaping
mod Leasing
mod Planning
mod Policies
mod Vectorizing
mod Working
mod Syncing
mod Tokens
mod Storing
mod Embedding
mod Serving
mod Asking
