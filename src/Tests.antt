-- ===== src/Tests.antt =====
-- Runs of the model on small inputs, and each theorem at an input that meets its hypotheses.
mod Room
mod Identity
mod Cache
mod Issues
mod Git
mod Review
mod Store
mod Trigger
mod Relay
mod Restore
mod IssueCache
mod Affinity
mod Contracts
