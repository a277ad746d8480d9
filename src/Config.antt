-- ===== src/Config.antt =====
-- `app_config` of src/config.h, and its defaults, keys and loading in src/config.c. A `char` array is
-- the string in it; its size bounds what `copy_value` keeps.
pub mod Fields
pub mod Load
pub mod Fits
pub mod Keys
