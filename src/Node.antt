-- ===== src/Node.antt =====
-- kext/sysfs_node.c: parents of nodes, the node hash, and the search that creates nodes.
pub mod Hash
use m_sl_sys_fs.Base.{none, some, if◌then◌else◌}
use m_sl_sys_fs.Types.{SfsId, Sfsnode, Snode, no_regid, no_objectid}
use m_sl_sys_fs.Structure.{Structure, deref}

-- The structure node of the parent; the root is its own.
abbrev pub parent_snode : Structure → Snode → Snode
parent_snode st snode = elim snode.parent [ none ↦ snode | some p ↦ deref st p ]

-- `sysfs_get_parent_node_id`, for a node that has a structure node
unfoldable pub get_parent_node_id : Structure → Sfsnode → SfsId
get_parent_node_id st snp =
    let parent = parent_snode st (deref st snp.structure_node) in
    record {
      base_id = parent.base_node_id;
      regid = if parent.flags.dynamic then snp.node_id.regid else no_regid;
      objectid = if parent.flags.dynamic then snp.node_id.objectid else no_objectid;
    }
