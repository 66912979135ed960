-- ===== src/Tests.antt =====
-- Concrete inputs: runs of the operations, and the theorems at inputs that meet their hypotheses.
mod Memory
mod Filtering
mod Reassembly
mod Parsing
mod Outputs
mod Pcaps
mod Capturing
mod Archives
mod Programs
mod Observations
