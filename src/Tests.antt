-- ===== src/Tests.antt =====
-- Runs of the operations on concrete inputs.
pub mod Memory
pub mod Table
mod ContentRuns
mod AuthnRuns
mod RestRuns
mod ExtensionRuns
mod SiteRuns
mod StackRuns
mod AppRuns
mod PluginRuns
mod ScreenRuns
mod ActionRuns
mod BffRuns
mod SnapshotRuns
mod WorkerRuns
