-- ===== src/Auth.antt =====
-- Sessions of the administrators: app/application/use_cases/auth.py with its repositories, and
-- app/core/security.py.
pub mod Tokens
pub mod Users
pub mod Security
pub mod UseCases
pub mod Rotation
pub mod Logins
pub mod Purges
pub mod Tables
