-- ===== src/Brewing.antt =====
-- custom_components/xbloom/brewing.py: the recipe payloads, and the chains of commands that arm,
-- start and store recipes over the link of ble/client.py.
pub mod Payload
pub mod Link
pub mod Chain
mod Tests
