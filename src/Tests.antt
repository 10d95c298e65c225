-- ===== src/Tests.antt =====
-- The theorems at concrete inputs.
mod Console
mod Patching
mod Framing
mod Execution
mod Calling
mod Undisturbed
mod Reaching
mod Reapplying
mod Restoring
mod Calls
mod Adding
mod EndToEnd
mod Applying
mod Threads
mod Logs
mod Lookup
mod Kernel
mod Image
mod DynLoad
mod Starting
mod Unloading
mod Lifetime
mod Histories
mod Callers
