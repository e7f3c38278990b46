-- ===== src/Domain/Enums.antt =====
-- domain/enums.py
pub data ProviderName : Type 0 where
  openai anthropic ollama : ProviderName

pub data EvaluatorFamily : Type 0 where
  deterministic statistical llm_judge : EvaluatorFamily

pub data CaseOrigin : Type 0 where
  authored promoted_trace : CaseOrigin

pub data ReleaseDecision : Type 0 where
  pass block needs_review : ReleaseDecision

pub data JobStatus : Type 0 where
  queued running completed failed : JobStatus
