-- ===== src/Ingress.antt =====
-- The ingress: pools of replica sockets, routes, activation on demand, and layer-4 ports.
pub mod Pool
pub mod Ports
pub mod Routes
pub mod Activation
