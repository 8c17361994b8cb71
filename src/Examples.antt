-- ===== src/Examples.antt =====
-- The theorems applied to concrete inputs: topics, registries, documents and their rules, clients and calls.
mod Data
mod RegistrationRuns
mod RegistryRuns
mod EngineRuns
mod SemanticRuns
mod NodeData
mod NodeRuns
mod SignalData
mod SignalRuns
mod CallRuns
mod FlowRuns
mod TaskRuns
