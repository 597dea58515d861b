-- ===== src/Api.antt =====
-- api/v1alpha1: the custom resources McuNode, McuDeployment and McuConfigMap, and the Kubernetes
-- types that they hold. Metadata that the code never reads (type, list and resource versions) is
-- left out.
pub mod Meta
pub mod Node
pub mod Deployment
pub mod Kube
