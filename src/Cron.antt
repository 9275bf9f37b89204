-- ===== src/Cron.antt =====
-- Cron expressions: parsing, firing times and the active window (backend/app/services/cron.py).
pub mod Error
pub mod Range
pub mod Field
pub mod Schedule
pub mod Window
pub mod Tests
