-- ===== src/Tests.antt =====
-- Runs of the model on concrete inputs.
mod Data
mod Filters
mod Headers
mod Peers
mod Rows
mod Objects
mod Comments
mod Sorting
mod Stores
mod Updates
