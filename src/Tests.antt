-- ===== src/Tests.antt =====
-- Runs at concrete inputs, and each theorem at an input that meets its hypotheses.
mod Fixtures
mod Clients
mod Values
mod Redis
mod Natives
mod Pipeline
mod System
mod Script
mod Stop
mod Connection
mod Table
mod Menus
mod Worker
mod Unload
