-- ===== src/Tests.antt =====
-- Runs of the model on concrete inputs, and the theorems at inputs that meet their hypotheses.
mod Samples
mod Algorithms
mod Windows
mod Store
mod Local
mod Web
mod Redis
mod Lua
mod Sets
