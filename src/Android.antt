-- ===== src/Android.antt =====
-- src/android and include/firebase/telemetry/persistence/android: the binding to Java.
pub mod Java
pub mod Strings
pub mod LocalRef
pub mod ClassCache
pub mod References
pub mod Registration
pub mod Spans
pub mod Natives
