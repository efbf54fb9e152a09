-- ===== src/Examples.antt =====
-- The library's theorems at concrete inputs.
mod Frames
mod Devices
mod Controllers
mod Fingerprints
mod SensorHal
mod Clients
mod Gestures
mod Panels
mod Services
mod Flows
mod Rounds
