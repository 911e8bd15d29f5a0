-- ===== src/System/Lifecycle.antt =====
-- What the extension asked SourceMod for and gave back, from SDK_OnLoad to SDK_OnDependenciesDropped of
-- extension.cpp, in the worlds that it reaches in between.
use clientprefs_redis.Sdk.{Sdk}
