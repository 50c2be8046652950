-- ===== src/Tests.antt =====
-- Runs of the models on small inputs, and the theorems at inputs that meet their hypotheses.
mod Data
mod Bytes
mod Connection
mod Calls
mod Packets
mod Text
mod Chip
mod Setup
mod Uploads
mod Serving
