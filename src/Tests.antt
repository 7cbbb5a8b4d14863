-- ===== src/Tests.antt =====
-- Runs of the program's definitions on concrete inputs.
mod Routing
mod State
mod Handlers
mod Answers
mod Delivery
mod Ingest
mod Machine
mod Pool
mod Desk
mod Program
