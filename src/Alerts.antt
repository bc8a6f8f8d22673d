-- ===== src/Alerts.antt =====
-- alerts/: what happens to an alert that a detector has made.
pub mod Correlator
pub mod Manager
pub mod Pipeline
pub mod Siem
