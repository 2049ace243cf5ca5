-- ===== src/Device.antt =====
-- usbhostfs/main.c and usbhostfs/host_driver.c: the device's end of the USB cable.
pub mod Async
pub mod Commands
pub mod Usb
pub mod Driver
pub mod Entries
pub mod Session
pub mod Link
pub mod Exchange
pub mod Served
pub mod Requests
pub mod Blockwise
pub mod Reading
pub mod Spread
pub mod Blocks
pub mod Whole
pub mod Steady
mod Tests
