-- ===== src/Examples.antt =====
-- Runs of the models and instances of the theorems.
mod Engine
mod Instances
mod Ranking
mod Web
mod Routes
mod Payments
mod Client
mod Pages
mod Setup
