-- ===== src/View.antt =====
-- What the HTTP handlers of app.rs compute from the table: `family`, `routes` and `search`. The handlers
-- get their parameters from axum and give a record for the JSON object that they answer with.
pub mod Page
pub mod Search
pub mod Stats
mod Tests
