-- ===== src/Tests.antt =====
-- Runs at concrete inputs, and the theorems at inputs that meet their hypotheses.
mod Escaping
mod Trees
mod Smart
mod Lines
mod Inlines
mod References
mod Rendering
mod Definitions
