-- ===== src/Tests.antt =====
-- Runs of the model on small inputs, and each property at a concrete input.
mod Samples
mod Runs
mod Witnesses
mod LocalizationSamples
mod LocalizationWitnesses
mod JobSamples
mod JobWitnesses
