-- ===== src/Tests.antt =====
-- Runs of the definitions on small inputs, and instances of the theorems at concrete inputs.
mod Hits
mod Queries
mod Results
mod PostingLists
mod Documents
mod Stores
mod Parsing
mod Schemas
mod Rows
mod Searches
mod Prefixes
