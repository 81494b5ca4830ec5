-- ===== src/WebSecurity.antt =====
-- app/web_security.py
pub mod Limiter
pub mod Session
pub mod Csrf
