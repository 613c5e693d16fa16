-- ===== src/Alerts.antt =====
-- app/alert_scheduler.py and the scheduled run of app/main.py: alert rules and their delivery.
pub mod Rules
pub mod Bounds
pub mod Delivery
pub mod PublicUrl
pub mod Safety
pub mod Schedule
pub mod Log
pub mod Examples
