-- ===== src/Examples.antt =====
-- Runs of the models on small inputs, and each theorem at an input that meets its hypotheses.
mod Errors
mod Queue
mod Settings
mod Worker
mod Requests
mod Events
mod Service
mod Wait
mod Outbox
mod Config
mod Creation
mod Sso
