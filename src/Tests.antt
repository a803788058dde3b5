-- ===== src/Tests.antt =====
-- Runs of the models on small inputs, and the instances of the results on them.
pub mod Versions
pub mod Ports
pub mod Directory
pub mod Pipelines
pub mod Runners
pub mod Logs
pub mod Composing
pub mod Configs
pub mod Projects
pub mod Handovers
