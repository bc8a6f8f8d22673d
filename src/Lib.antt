-- ===== src/Lib.antt =====
-- SentinelPi watches a small network, raises alerts, and may act on them. This library models the
-- decisions that it takes, from the Python of sentinelpi/, and proves what they guarantee.
--
-- The parts, and how they interact: detectors make `Alert`s (models.py), an alert goes to every
-- registered responder through the response manager (responders/manager.py), and the responder's
-- action is recorded in the database, put in a queue for approval, or executed by running
-- commands (responders/firewall.py and its siblings). The health of the write path to the
-- database is kept by utils/persistence_health.py.
--
-- Prelude: Booleans, lists and the library names that all files use. Prelude.Tests has the tests
--   on numbers and the case lemmas, Prelude.Lists the operations on lists, Prelude.Keys the types
--   with decidable equality, Prelude.Dict the dictionary (an association list in insertion order).
-- Models: sentinelpi/models.py. A `datetime` is a number of microseconds; a test against `now -
--   delta` is an addition on the other side.
-- Network: the address tests of sentinelpi/utils/network.py. An address is its number.
--   `ip_address`, the parser of Python's library, is a parameter.
-- World: what the alert pipeline and the responders do to the world (`Event`, `Trace`, the newest
--   first) and what the world answers (`Env`, a function of the whole trace, so that every call may
--   fail at any time and no answer need be the same twice). World.Audit reads a trace as an audit.
-- Health: sentinelpi/utils/persistence_health.py; Health.Outage follows an outage from its first
--   failure to its recovery.
-- Responders: sentinelpi/responders/base.py and the loop over commands that all responders share.
--   Responders.Firewall, Responders.DnsSinkhole, Responders.ArpRestore and Responders.KillSwitch
--   are the four responders, Responders.Gates what they share. Responders.Manager and
--   Responders.Lifecycle are ResponderManager: action objects live in a heap (`objects`), since the
--   recent list and the approval queue share them. The others prove: Responders.Safety, Keeps,
--   Ledger, Ascends, Sound, Handles, Operations, Marking and Rollback the invariant of the manager,
--   Responders.Runs the audit of whole runs, Responders.Ladder the gating, Responders.Approvals the
--   operator's decisions, Responders.Plans what is blocked, Responders.Commands, Iptables and
--   Blocks what running and undoing commands does.
-- Alerts: sentinelpi/alerts/manager.py, correlator.py and siem.py. Alerts.Correlator is
--   IncidentCorrelator; its children bound its memory (Bounds), and show the cooldown (Cooldown),
--   what an incident means (Incidents) and what the search for the intrusion sequence finds
--   (Sequence). Alerts.Manager has the steps of AlertManager and Alerts.Pipeline puts them
--   together, with the fuel that counts an incident's turn through the same pipeline: two are
--   enough. Its children: Accounts (the counters), Audit (the response ledger, through the whole
--   pipeline), Once (the cooldown), Outcomes (failures), Turns (the fuel). `isoformat` and `repr`,
--   which print datetimes and lists, are Python's and parameters; the look-ups of countries and
--   networks and the score that the device tracker keeps are answers of `Env`. Of an incident's
--   `extra` nothing is modelled: no modelled code reads it. Alerts.Siem is the CEF line and the
--   syslog frame of siem.py; its child reads a header back.
-- Text: the operations on texts that several parts use; Text.Show prints numbers and sorts texts,
--   each once (Sets), Text.Search has the patterns and the splitting, for ASCII texts.
-- Capture: sentinelpi/capture/flow_ingest.py, and the event type of packet_capture.py.
--   Capture.Bytes and Capture.Addresses are what Python's struct and socket compute.
--   Capture.NetFlow has the parsers of NetFlow v5, v9 and IPFIX, where the offset into the data is
--   the bytes from it on, and the loops over sets and templates run on the number of bytes as fuel,
--   which is enough since each round takes at least four (Fuel); its other children have the
--   encoders (Export), the limit (Bounds), and the exception of `str` for a number of more than
--   4300 digits (Raises), which no datagram of at most 1785 bytes can bring about (Short).
--   Capture.Collector is NetFlowCollector: its cache (Contexts), its limits (Limits, Bounded).
--   Capture.Conntrack and Capture.Filterlog are the other two sources, with which flows a poll
--   emits (Once) and what lines it reads (Chunks). Capture.Queueing is what a full queue does.
-- Inventory: Inventory.Tracker is sentinelpi/inventory/device_tracker.py, with the texts of its
--   alerts (Alerts), what the trust of the configuration survives (Trust) and all runs (Runs).
--   Inventory.Classifier is device_classifier.py, Inventory.Vendors and Inventory.Prefixes the MAC
--   addresses of sentinelpi/utils/network.py. A call of the database may raise at any time, and
--   leaves the state as it is then; `step` and `runs` are the calls that the threads and the
--   dashboard make. A suspicion score is in thousandths.
-- Detectors: sentinelpi/detectors/base.py, whose helpers evict what no longer matters;
--   Detectors.Adaptive is adaptive.py, and Detectors.PortScan port_scan_detector.py with its poll
--   (Poll), which ports are recent (Ports), what its alerts mean (Alarms) and why eviction is not
--   seen (Eviction). Detectors.Lateral is lateral_movement_detector.py, and its child Seen what is
--   reported once. The floats of the back-off are thousandths. Detectors.Arp is arp_detector.py, on
--   the inventory: what it does about the gateway (Gateway), what it holds of an address (Claims),
--   what an exception leaves (Raised), and its alerts at the responder (Restore).
--   Detectors.Profiles is what geo_country_detector.py (Countries), active_hours_detector.py
--   (Hours) and host_profile_detector.py (Hosts) share, with the tables of
--   sentinelpi/storage/database.py that they use; Once, Held and Reports say what they report over
--   time.
-- A child named State, Rules or Records holds the types of its parent, and what is read of them,
--   and its parent passes its names on.
-- Tests: runs and examples at concrete inputs.
--
-- Recursion is structural. Fuel counts the turns of an incident in Alerts.Pipeline, the digits in
-- Text.Show and Capture.Addresses, and the bytes in Capture.NetFlow. Errors of Python that the
-- code catches are values; one that leaves an operation is `raised`. Locks are not modelled: each
-- operation is one step.
--
-- Not modelled: packet capture, the dashboard, the notifiers' transports, the SQL of the database
-- but for the tables of host profiles, and the wiring of main.py, which are input and output; log
-- lines; the statistics of the baseline, which are floats; and of the detectors those of beacons,
-- connections, DNS, networks, log-ins, files, traffic and known indicators, with the feeds, the
-- watchdog and the validation of the configuration.
pub mod Prelude
pub mod Models
pub mod Network
pub mod Text
pub mod World
pub mod Health
pub mod Responders
pub mod Alerts
pub mod Capture
pub mod Inventory
pub mod Detectors
pub mod Tests
