-- ===== src/Httpapi.antt =====
-- server/internal/httpapi: the proxy from a client's request to an account's upstream.
pub mod Retry
pub mod Proxy
pub mod Admission
pub mod History
