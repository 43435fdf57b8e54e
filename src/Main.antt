-- ===== src/Main.antt =====
-- The process (`CurrencyServerApp` in backend/src/main.cpp): its options, its log channels, the
-- objects that it builds, and its way from the start to an exit code.
pub mod Process
pub mod Options
pub mod Logging
pub mod Building
pub mod Program
pub mod Built
pub mod Rules
pub mod Channels
pub mod Outcomes
pub mod Loading
pub mod Serving
pub mod Ending
pub mod Overrides
