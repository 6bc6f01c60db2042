-- ===== src/Llm.antt =====
-- app/llm: the errors of the model client, the price table, and the calls of the client.
pub mod Failure
pub mod Runs
pub mod Cost
pub mod Client
