-- ===== src/Examples.antt =====
-- Runs of the modelled code on small inputs, and the theorems at such inputs.
mod Pools
mod Signatures
mod Proxy
mod Retry
mod Models
mod Tokens
mod Admission
mod Logs
mod Streams
mod Acquire
mod Requests
mod Histories
