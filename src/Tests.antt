-- ===== src/Tests.antt =====
-- The theorems at concrete inputs, and the definitions run on them.
mod Samples
mod Servers
mod World
mod Texts
mod OnValues
mod OnDiff
mod OnSync
mod OnNative
mod OnContents
mod OnHelm
mod OnLifecycle
mod OnReconciler
mod OnNotifier
mod OnDownload
mod OnUnpack
mod OnApplier
mod OnSettled
mod OnStale
mod OnApart
mod OnTemplate
mod OnCli
mod OnMain
mod OnStartup
mod OnCopies
