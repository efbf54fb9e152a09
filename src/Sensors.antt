-- ===== src/Sensors.antt =====
-- The multi-HAL proxy of the sensors service (aidl/sensors): sensor handles, the wake lock, the
-- queue of pending events, the events of a sub-HAL and the proxy itself.
pub mod Handles
pub mod WakeLock
pub mod Pending
pub mod Events
pub mod Proxy
pub mod Flow
pub mod OneShot
pub mod Sampler
pub mod Lid
pub mod Gestures
pub mod Lcd
pub mod SubHal
pub mod Directory
pub mod Loader
pub mod Calls
pub mod Udfps
pub mod Startup
pub mod Stop
