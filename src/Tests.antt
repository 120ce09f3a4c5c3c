-- ===== src/Tests.antt =====
-- Runs of the models at concrete inputs: each theorem with hypotheses is applied where they hold.
-- Decibels, metres and nanoseconds are fixed-point numbers, and the database is the one in memory.
mod Signal
mod Cases
mod Workflow
mod Events
mod Access
mod Services
