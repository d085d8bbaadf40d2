-- ===== src/Tests.antt =====
-- Runs of the theorems at concrete inputs.
mod Surroundings
mod Ingress
mod Autoscale
mod Controller
mod Services
mod Deployments
mod Layers
mod Manifests
mod Hostnames
