-- ===== src/Drivers.antt =====
-- kernel/src/drivers: the devices whose interrupts bring input.
pub mod Keyboard
