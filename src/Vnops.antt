-- ===== src/Vnops.antt =====
-- kext/sysfs_vnops.c: the vnode operations.
pub mod Dirent
pub mod Readdir
pub mod Lookup
pub mod Attr
