-- ===== src/App/Recovery.antt =====
-- app_scan after app_write (src/services/halaos_runtime.c): what a restart finds in the flash.
