-- ===== src/Platform.antt =====
-- The platforms of platform/arm and platform/armv8.
pub mod Bus
pub mod Gic
pub mod Uart
pub mod Arndale
pub mod Realview
pub mod VexpressA9
pub mod VexpressA15
pub mod Virt
pub mod Sa1100
pub mod Versatile
pub mod Boards
pub mod Signal
pub mod Enable
pub mod Trigger
pub mod Swi
pub mod Arm
pub mod Within
pub mod Calls
pub mod Reach
pub mod Put
pub mod Print
pub mod Tests
