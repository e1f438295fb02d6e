-- ===== src/Tests.antt =====
-- Runs of the model at concrete inputs, which show that the hypotheses of its theorems can hold.
mod Serving
mod Scenario
mod Mutation
mod Again
mod Time
mod Mission
mod Wire
mod Locking
mod Risky
mod Control
