-- ===== src/Modbus.antt =====
-- internal/exec/device/modbus and internal/simulator: register values, and the simulated device.
pub mod Decode
pub mod Read
pub mod Simulator
