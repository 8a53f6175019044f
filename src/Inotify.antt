-- ===== src/Inotify.antt =====
-- inotify/inotify_dtree.c: a cache of watched directories kept in step with inotify events.
pub mod Cache
pub mod World
pub mod Paths
pub mod Roots
pub mod Watching
pub mod Events
pub mod Reading
pub mod Commands
pub mod Program
mod Tests
