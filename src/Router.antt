-- ===== src/Router.antt =====
-- The credentials of an agent at the model router: the tokens (Token), their renewal (Refresh) and
-- the tokens of delegated agents (Delegation), after services/api/src/services/model-router-*.ts.
pub mod Token
pub mod Refresh
pub mod Delegation
mod Tests
