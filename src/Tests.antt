-- ===== src/Tests.antt =====
-- Runs of the models on small inputs, and the theorems at such inputs, a module per part.
mod Sessions
mod Tables
mod Calls
mod Owners
mod Paths
mod Reports
mod Releases
mod Nodes
mod Opened
mod Resumes
mod Events
mod Watches
mod Reads
mod Dirents
