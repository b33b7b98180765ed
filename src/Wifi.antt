-- ===== src/Wifi.antt =====
-- src/wifi: the credentials store, the access point, the station and its scan.
pub mod Config
pub mod Driver
pub mod AccessPoint
pub mod Scan
pub mod Station
pub mod Sharing
pub mod Addresses
