-- ===== src/Agent/Llm.antt =====
-- src/reconcile/agent/llm.py and prompts.py
pub mod Mock
pub mod Prompts
pub mod Groq
pub mod Subjects
pub mod Search
pub mod Proposals
pub mod Budget
