-- ===== src/Ble.antt =====
-- custom_components/xbloom/ble: the BLE protocol of the machine.
pub mod Client
pub mod Constants
pub mod Framing
pub mod Models
