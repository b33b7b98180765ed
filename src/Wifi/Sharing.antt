-- ===== src/Wifi/Sharing.antt =====
-- src/wifi/wifi_ap.cpp and wifi_sta.cpp together: both bring up the same WiFi, and each keeps flags
-- of its own.
pub mod Takeover
mod Tests
