-- ===== src/Examples.antt =====
-- Runs of the model on campaigns and requests of res/, and each theorem applied to them.
mod Data
mod Runs
mod Witnesses
mod Handling
mod Locking
mod Reading
mod Objects
mod Serving
mod Service
mod Drawing
mod Loading
