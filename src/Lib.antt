-- ===== src/Lib.antt =====
-- Xiaomi hardware services: a model of the C++ code of this repository, and what holds of it.
--
-- The program is a set of Android hardware services. Those with logic of their own are here.
--
-- Keyboard (aidl/keyboard) drives a keyboard cover over a character device. Keyboard/Frame.antt is
-- the part of Protocol.cpp that builds and checks frames (makeCommand, hasValidChecksum, the
-- queries), Keyboard/Reports.antt its report parsers, Keyboard/Client.antt its client framing
-- (decodeClientCommand, wrapDevicePayload, toHex); the struct names are those of Protocol.h.
-- Keyboard/Device.antt is NanoappDevice.cpp, the writer and one round of the reader thread, and its
-- child StopPipe the pipe that stops the reader;
-- Keyboard/Nanoapp.antt is KeyboardNanoapp.cpp, the Binder object. Keyboard/Controller.antt and its
-- children are KeyboardController.cpp: the state, updateInputGate, the handlers of reports and
-- errors (Handlers) and one round of queryLoop (QueryLoop). A report goes from the device's reader
-- to the controller, which registers or removes the input devices through the gate, and to the
-- Binder object, which hands it to its client. Keyboard/Hall.antt is HallInputMonitor.cpp, the reader
-- of the cover's switches, whose reports are the controller's onHallSwitchState.
-- Keyboard/Service.antt is the controller with the threads around it, joined by the callbacks of its
-- constructor. Keyboard/Cli.antt is keyboard_client.cpp, the command line client: what it sends for a
-- command line; its child Callback is what it makes of the frames that come back.
--
-- Fingerprint (aidl/fingerprint) is the session between the framework and the vendor's library:
-- Fingerprint/Lockout.antt is LockoutTracker.cpp, Fingerprint/Codes.antt and Fingerprint/Session.antt
-- are Session.cpp in the default build (IMPL_V2 not defined), Fingerprint/Token.antt is the token
-- conversion of Legacy2Aidl.h. The session owns a tracker and at most one timer of it.
-- Fingerprint/Service.antt is Fingerprint.cpp, the service that creates sessions,
-- Fingerprint/Props.antt its configuration table and the properties it reports, and
-- Fingerprint/Udfps.antt the loading of the device's handler (fingerprint).
-- Fingerprint/Hidl.antt with its children is the older service,
-- hidl/biometrics/fingerprint/BiometricsFingerprint.cpp.
--
-- Sensors (aidl/sensors) is the proxy of the sensor sub-HALs: Sensors/Handles.antt, WakeLock.antt,
-- Pending.antt and Proxy.antt are HalProxy.cpp, Sensors/Events.antt is HalProxyCallback.cpp, whose
-- events go to the pending queue and whose wake locks to the shared one; Sensors/Flow.antt puts the
-- two together. Sensors/Loader.antt loads the sub-HALs, Sensors/Calls.antt passes the calls on by
-- the handles of the sensors. Sensors/Directory.antt is the part of HalProxy.cpp that gathers the
-- sensors and goes by their list, Sensors/Startup.antt its initializeCommon, Sensors/Stop.antt its
-- stopThreads. Sensors/Sampler.antt is the base class of sensors/v2/Sensor.cpp, which samples,
-- Sensors/OneShot.antt the one-shot sensor there, with its destructors in OneShot/Destroy.antt,
-- Sensors/Gestures.antt its subclasses and the data of their events, Gestures/Info.antt what the
-- constructors tell of a sensor, Sensors/SubHal.antt the sub-HALs around such sensors (sensors/v2
-- and sensors/lcd, SensorsSubHal.cpp), Sensors/Lid.antt is sensors/lcd/LidStateTracker.cpp, which
-- gates the events of the sensors of Sensors/Lcd.antt (sensors/lcd/SensorLcd.h), and
-- Sensors/Udfps.antt is sensors/v1/udfps_hal.cpp.
--
-- Touch.antt is aidl/touch, three switches. TouchFeature.antt is
-- hidl/touchfeature/1.0/TouchFeature.cpp, the touch modes over the kernel's, and Vibrator.antt is
-- vibrator/effect/effect.cpp, the cache of effect streams.
--
-- Common holds what the modules share: Boolean tests, lists and integers over the native numbers,
-- and bit lemmas. Examples applies theorems to concrete inputs.
--
-- A byte is a number, a buffer a list of numbers, or none for a null pointer; a sum of bytes wraps
-- at 256 and a handle is a bit pattern below 2 ^ 32. Handlers take their state and return it with
-- what they do outside, in order. What a system call, the vendor's library, the clock, the file
-- system or a sub-HAL answers is an argument. Threads are sequences of rounds in any order; a
-- handler that holds its mutex is one step. All loops are structural but two, which are on
-- fuel. For the recursion of get_effect_stream two units are enough, since a call for an effect
-- makes one call, for the click effect, and that makes none; drainStopSignal has one unit more than
-- the pipe has bytes, and each round reads at least one. The count of failed fingerprint attempts, the
-- counters of the wake lock and the sizes of the pending queue are unbounded here. Accelerations
-- are integers, in units of 9.8 / 256 m/s^2.
--
-- Not modelled: logging, mutexes, dlopen and what it loads, the service mains, the text of printed
-- lines, the parts of HalProxy that wrap the queues and print its state, the HIDL sensor service (a
-- copy of the platform's), and the applications.
pub mod Common
pub mod Keyboard
pub mod Fingerprint
pub mod Sensors
pub mod Touch
pub mod TouchFeature
pub mod Vibrator
pub mod Examples
