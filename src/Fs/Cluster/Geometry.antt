-- ===== src/Fs/Cluster/Geometry.antt =====
-- The address arithmetic of include/thix/cluster.h.
use os_thix.Prelude.{ℕ, ◌+◌, ◌-◌, ◌*◌, ◌/◌, ◌%◌, ◌<◌, ◌≡◌, arith}
use os_thix.Fs.Cluster.{
  Superblock, cluster_to_fs, fs_to_cluster, cluster_of_block, first_cluster, reserved_blocks,
}

pub split_div : (c n r : ℕ) → r < n → (c * n + r) / n ≡ c
split_div c n r h = grind arith

pub split_mod : (c n r : ℕ) → r < n → (c * n + r) % n ≡ r
split_mod c n r h = grind arith

-- A data block of a cluster has a file system address from which `b_free` finds the cluster and
-- `fs2cluster` the block, if the reserved blocks and the block fit the cluster.
pub cluster_to_fs_inverse :
    (sb : Superblock) (cluster block : ℕ)
    → reserved_blocks sb + block < sb.s_bpcluster
    → (cluster_of_block sb (cluster_to_fs sb cluster block) ≡ cluster)
      × (fs_to_cluster sb (cluster_to_fs sb cluster block) ≡ block)
unfolding cluster_of_block fs_to_cluster cluster_to_fs
cluster_to_fs_inverse sb cluster block h =
    (rw shift (split_div cluster _ _ h), rw (shift, split_mod cluster _ _ h) (omega arith))
  where
    shift :
        first_cluster sb + cluster * sb.s_bpcluster + reserved_blocks sb + block - first_cluster sb
        ≡ cluster * sb.s_bpcluster + (reserved_blocks sb + block)
    shift = omega arith
