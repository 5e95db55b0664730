-- ===== src/Broker.antt =====
-- glidepath/broker/cmd/token-review-interceptor: who gets which GitHub token.
pub mod Names
pub mod Tokens
pub mod Pin
pub mod Intercept
mod Examples
