-- ===== src/Glib.antt =====
-- platform/os/linux_glib/base, where it differs from platform/os/linux/base: the functions that are
-- calls of GLib.
pub mod Evdriver
pub mod Timers
pub mod Sources
