-- ===== src/Acl.antt =====
-- acl/acl_update.c, and users_groups/ugid_functions.c that it uses.
pub mod Ids
pub mod Spec
pub mod Update
pub mod Program
mod Tests
