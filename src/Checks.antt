-- ===== src/Checks.antt =====
-- Runs at concrete inputs: each file takes one part, and applies its theorems there.
mod PoolChecks
mod RouterChecks
mod RelayChecks
mod RequestChecks
mod ConversationChecks
mod TransformChecks
mod ModelChecks
mod Machine
mod CredentialsChecks
mod UpstreamChecks
mod ServerChecks
mod AffinityChecks
