-- ===== src/Scenarios.antt =====
-- Concrete runs of the models: the API's statements, the workers', the event log's and the checks of access.
pub mod Tasks
pub mod Events
pub mod Workers
pub mod Access
pub mod Requests
pub mod Streams
mod Publishing
mod Tokens
mod Signals
mod Accounts
mod Hooks
mod Lags
mod Keys
mod Overlaps
