-- ===== src/Sigv4.antt =====
-- pkg/sigv4: reading the signature of a request, the canonical request, checking the signature, and
-- binding the body to what was signed.
pub mod Payload
pub mod Requests
pub mod Authorization
pub mod Contents
pub mod Parsing
pub mod Canonical
pub mod Verification
mod Samples
