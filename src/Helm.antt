-- ===== src/Helm.antt =====
-- pkg/bundle/helm: charts and releases (`Helm/Sdk`, what the helm library provides),
-- helm-cli.go (`Helm/Cli` and `Helm/History`) and helm.go (`Helm/Apply`).
pub mod Sdk
pub mod History
pub mod Cli
pub mod Apply
