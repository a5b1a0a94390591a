-- ===== src/Simulator.antt =====
-- simulator/: the rules and loops, the choice of a pair, the service, and its bootstrap.
pub mod Rules
pub mod Occupancy
pub mod Loop
pub mod Interval
pub mod Service
pub mod Bootstrap
