-- ===== src/Examples.antt =====
-- The properties applied to concrete inputs, and runs of the definitions.
mod Spools
mod Rounds
mod Days
mod Signals
mod Gates
mod Wired
mod Limits
mod Disks
mod Serving
mod Boots
mod Service
mod Stops
