-- ===== src/Auth/Security.antt =====
-- auth/security: Argon2 and JWT behind parameters, and the counters of the rate limiter.
pub mod Passwords
pub mod Tokens
pub mod RateLimit
