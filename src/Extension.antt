-- ===== src/Extension.antt =====
-- ClientPrefs of extension.h and extension.cpp with the queues of TQueue.h: the configuration that
-- SDK_OnLoad reads, the query threads, the frames, and unloading.
pub mod Config
pub mod Frame
pub mod Thread
pub mod Worker
pub mod Unload
pub mod Stop
pub mod Lifecycle
pub mod Translate
