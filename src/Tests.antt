-- ===== src/Tests.antt =====
-- Tests and examples, by part.
mod Response
mod Alerts
mod Detectors
mod Lateral
mod Profiles
mod Arp
mod Capture
mod Flows
mod Inventory
mod Siem
