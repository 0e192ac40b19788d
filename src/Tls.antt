-- ===== src/Tls.antt =====
-- The thread local storage of 4. Thread Local Storage/tls.c.
pub mod State
pub mod Table
pub mod Storage
pub mod Life
pub mod Shares
pub mod Isolation
pub mod Copy
pub mod Write
pub mod Protect
pub mod Access
pub mod ReadBack
pub mod Destroy
pub mod Unowned
pub mod Create
pub mod NewPage
pub mod CreateLoop
pub mod CreateShared
pub mod SharedPage
pub mod CloneLoop
pub mod CloneShared
pub mod PageFault
pub mod Handler
mod Tests
