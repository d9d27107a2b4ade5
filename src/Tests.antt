-- ===== src/Tests.antt =====
-- Runs at concrete inputs, and each theorem with a hypothesis at an input that meets it.
mod Toy
mod Clock
mod Merging
mod Trust
mod Server
mod Network
mod Flushing
mod Sending
mod Sessions
mod Serving
mod Lingering
mod Watching
mod Texts
mod Calls
mod Terminal
mod Reopening
