-- ===== src/Providers.antt =====
-- provider_registry.py, and the parts of cloud_providers.py, ollama.py and execution.py that choose
-- and check the providers before a run.
pub mod Params
pub mod Registry
pub mod Covered
