-- ===== src/Inventory.antt =====
-- inventory/: the devices on the network. The children model device_tracker.py and
-- device_classifier.py, and the look-up of vendors in utils/network.py.
pub mod Prefixes
pub mod Vendors
pub mod Classifier
pub mod Tracker
