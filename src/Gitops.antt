-- ===== src/Gitops.antt =====
-- gitops-operator: custom resources that a git repository describes are created in the cluster.
pub mod Parts
pub mod Apply
pub mod Kinds
pub mod Credentials
pub mod Git
pub mod Files
pub mod Delivery
pub mod Quiet
pub mod Manifests
pub mod Repository
