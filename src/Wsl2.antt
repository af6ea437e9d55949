-- ===== src/Wsl2.antt =====
-- secure/wsl2: credentials kept by Windows, reached through the helper keyring-winbridge.exe.
pub mod Reports
pub mod Protocol
pub mod Client
pub mod Keyring
