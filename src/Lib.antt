-- ===== src/Lib.antt =====
-- Verification of sysfs, a Linux-like /sys file system for macOS: a kernel extension that shows a fixed
-- skeleton of directories and, below /sys/devices, /sys/class, /sys/block and /sys/module, what the
-- IORegistry and the list of loaded kexts hold.
--
-- The parts and how they interact: a mount builds the layout tree (Structure) and counts itself
-- (Vfsops); a vnode operation (Vnops) starts at a node (Node), whose structure node says which part of
-- the registry (Iokit) it stands for; a lookup ends in a node from the hash (Node.Hash); a read calls a
-- content function (System), whose text is copied out through a uio (Subr, Uio). The registry that the
-- vnode operations ask is a snapshot (Snapshot), built on a mount and replaced by a thread call that
-- the queries start when it is stale.
--
-- The files:
--   Base       names, tests, lists and texts that all parts share
--   Types      include/fs/sysfs/sysfs.h: node types, identifiers, structure nodes and nodes
--   Uio        the kernel's uiomove, a parameter: what the code relies on is stated as MovesBytes
--              (a byte buffer takes as much as it has room for) and MovesRecords (a record that fits is
--              taken whole); both have an instance in that file
--   Structure  kext/sysfs_structure.c: the layout tree on its heap. Structure has the add_ functions,
--              Structure.Init sysfs_structure_init, Structure.Free the release of the tree,
--              Structure.Links the invariant of the tree
--   Subr       kext/sysfs_subr.c: vnode types, file ids, sysfs_copy_data (Subr.Copy), sysfs_atoi
--              (Subr.Decimal)
--   Iokit      include/fs/sysfs/sysfs_iokit.h: the queries of the registry as a record, which the vnode
--              operations take as a parameter
--   Node       kext/sysfs_node.c: parents of nodes. Node.Hash has the hash table and the sections of
--              sysfsnode_find and sysfs_reclaim between taking and releasing the hash lock
--              (Node.Hash.Find), the steps that threads take through them (Node.Hash.Steps), the
--              invariant of those steps (Node.Hash.Invariant) and what follows from it
--              (Node.Hash.Safety)
--   Snapshot   kext/sysfs_iokit.cpp. Snapshot.Hash is the hash from ids to nodes, Snapshot.Walk the walk
--              over the registry, Snapshot.Children the child lists and the ordinals of equal names,
--              Snapshot.Build sysfs_snap_build and sysfs_snap_free with their memory, Snapshot.Query the
--              queries, which fill the record of Iokit, and Snapshot.Refresh the static variables:
--              sysfs_snap_ensure, sysfs_snap_refresh, sysfs_iokit_prime and sysfs_iokit_teardown, with
--              the steps of the threads that share them (Snapshot.Refresh.Steps). What IOKit, the
--              allocator, the clock and copyLoadedKextInfo answer is a parameter. A refresh is the step
--              at its end, since nothing but its own build reads what the build writes
--   System     kext/sysfs_system.c: the contents of the files. What sysctl answers is a parameter
--   Vnops      kext/sysfs_vnops.c: Vnops.Dirent the entries, Vnops.Readdir the four readdirs,
--              Vnops.Lookup the lookup, Vnops.Attr getattr, read and readlink
--   Vfsops     kext/sysfs_vfsops.c: mount, unmount, root, the names of mounts and their attributes
--   Load       kext/sysfs.c: sysfs_init, sysfs_fini, sysfs_start and sysfs_stop, with what they and
--              sysfs_iokit_init allocate and register
--   Tool       fs/mount_sysfs.c: the mount tool, around getopt, getmntopts and mount(2)
--   Tests      concrete inputs for the properties
--
-- Names are byte strings without the terminator; machine integers are natural numbers with their
-- wrap-around written out, except the counters of mounted instances, of builds and of calls, which are
-- plain natural numbers. An int that overflows, which C leaves undefined, wraps around (Subr). Pointers are
-- addresses in a heap that never hands one out twice, and a freed cell reads as none.
--
-- Fuel. A loop over registry queries runs on the room in the buffer and the offset together: each round
-- uses up room or comes nearer to the offset, and Vnops.Readdir.Phases proves that this is enough. The
-- climb from a node to the root, for a link's target, runs on the address of its structure node: a
-- parent is older than its child, and Vnops.Attr.Depth proves that this is enough. The release of the
-- tree runs on the number of nodes handed out, and one more. A step of Node.Hash is one section under
-- the lock, so threads need no fuel: any interleaving is a sequence of steps. The probes of the
-- snapshot's hash run over its size, like the code's loops, the doubling of the size on its target,
-- which Snapshot.Build.Fits proves to be enough, and the walk up for a path on the code's bound of 64.
--
-- Not modelled: IOKit and the kernel's thread calls, of which the steps of Snapshot.Refresh.Steps take
-- the documented behaviour: a call that has been entered is queued, a queued call runs or is cancelled;
-- printing; locks other than the node hash's and the snapshot's.
pub mod Base
pub mod Types
pub mod Uio
pub mod Subr
pub mod Structure
pub mod Iokit
pub mod Node
pub mod System
pub mod Vnops
pub mod Vfsops
pub mod Load
pub mod Snapshot
pub mod Tool
pub mod Tests
