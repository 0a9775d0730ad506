-- ===== src/Bindings/Structs/Padding.antt =====
-- The units without a field, which only fill up a struct (jbm-ebpf/src/vmlinux.rs): their constructor takes
-- no argument.
use jbm.Prelude.{List, [], ◌∷◌}
use jbm.Bindings.Layout.{Layout}

abbrev devlink_2 : Layout
devlink_2 = record { bytes = 16; fields = [] }

abbrev sched_entity_1 : Layout
sched_entity_1 = record { bytes = 24; fields = [] }

abbrev sched_entity_2 : Layout
sched_entity_2 = record { bytes = 32; fields = [] }

abbrev fpu_1 : Layout
fpu_1 = record { bytes = 8; fields = [] }

abbrev zone_1 : Layout
zone_1 = record { bytes = 16; fields = [] }

abbrev zone_3 : Layout
zone_3 = record { bytes = 24; fields = [] }

abbrev pglist_data_1 : Layout
pglist_data_1 = record { bytes = 24; fields = [] }

abbrev pglist_data_3 : Layout
pglist_data_3 = record { bytes = 8; fields = [] }

abbrev rseq_1 : Layout
rseq_1 = record { bytes = 16; fields = [] }

abbrev list_lru_node_1 : Layout
list_lru_node_1 = record { bytes = 16; fields = [] }

abbrev bpf_raw_event_map_1 : Layout
bpf_raw_event_map_1 = record { bytes = 8; fields = [] }

abbrev srcu_data_1 : Layout
srcu_data_1 = record { bytes = 32; fields = [] }

abbrev module_1 : Layout
module_1 = record { bytes = 32; fields = [] }

abbrev taskstats_1 : Layout
taskstats_1 = record { bytes = 4; fields = [] }

abbrev bpf_map_1 : Layout
bpf_map_1 = record { bytes = 32; fields = [] }

abbrev bpf_map_2 : Layout
bpf_map_2 = record { bytes = 8; fields = [] }

abbrev psi_group_cpu_1 : Layout
psi_group_cpu_1 = record { bytes = 8; fields = [] }

abbrev psi_group_cpu_2 : Layout
psi_group_cpu_2 = record { bytes = 16; fields = [] }

abbrev sbq_wait_state_1 : Layout
sbq_wait_state_1 = record { bytes = 32; fields = [] }

abbrev netns_frags_1 : Layout
netns_frags_1 = record { bytes = 32; fields = [] }

abbrev netns_frags_2 : Layout
netns_frags_2 = record { bytes = 16; fields = [] }

abbrev netns_ipv4_1 : Layout
netns_ipv4_1 = record { bytes = 16; fields = [] }

abbrev netns_ipv4_2 : Layout
netns_ipv4_2 = record { bytes = 16; fields = [] }

abbrev dst_ops_1 : Layout
dst_ops_1 = record { bytes = 24; fields = [] }

abbrev netns_ipv6_1 : Layout
netns_ipv6_1 = record { bytes = 24; fields = [] }

abbrev netns_ipv6_2 : Layout
netns_ipv6_2 = record { bytes = 24; fields = [] }

abbrev netns_ipv6_3 : Layout
netns_ipv6_3 = record { bytes = 8; fields = [] }

abbrev netns_xfrm_1 : Layout
netns_xfrm_1 = record { bytes = 24; fields = [] }

abbrev netns_xfrm_2 : Layout
netns_xfrm_2 = record { bytes = 24; fields = [] }

abbrev net_1 : Layout
net_1 = record { bytes = 8; fields = [] }

abbrev net_2 : Layout
net_2 = record { bytes = 16; fields = [] }

abbrev net_3 : Layout
net_3 = record { bytes = 16; fields = [] }

abbrev bpf_offloaded_map_1 : Layout
bpf_offloaded_map_1 = record { bytes = 24; fields = [] }

abbrev socket_wq_1 : Layout
socket_wq_1 = record { bytes = 8; fields = [] }

abbrev skb_ext_1 : Layout
skb_ext_1 = record { bytes = 1; fields = [] }

abbrev dql_2 : Layout
dql_2 = record { bytes = 24; fields = [] }

abbrev qdisc_1 : Layout
qdisc_1 = record { bytes = 24; fields = [] }

abbrev netdev_rx_queue_1 : Layout
netdev_rx_queue_1 = record { bytes = 8; fields = [] }

abbrev bpf_prog_stats_1 : Layout
bpf_prog_stats_1 = record { bytes = 8; fields = [] }

abbrev irqaction_1 : Layout
irqaction_1 = record { bytes = 32; fields = [] }

abbrev irq_desc_1 : Layout
irq_desc_1 = record { bytes = 8; fields = [] }

abbrev files_struct_1 : Layout
files_struct_1 = record { bytes = 32; fields = [] }

abbrev files_struct_2 : Layout
files_struct_2 = record { bytes = 32; fields = [] }

abbrev pool_workqueue_1 : Layout
pool_workqueue_1 = record { bytes = 32; fields = [] }

abbrev worker_pool_1 : Layout
worker_pool_1 = record { bytes = 24; fields = [] }

abbrev cfs_rq_ty_1_1 : Layout
cfs_rq_ty_1_1 = record { bytes = 32; fields = [] }

abbrev cfs_rq_1 : Layout
cfs_rq_1 = record { bytes = 24; fields = [] }

abbrev cfs_rq_2 : Layout
cfs_rq_2 = record { bytes = 16; fields = [] }

abbrev task_group_2 : Layout
task_group_2 = record { bytes = 24; fields = [] }

abbrev rq_1 : Layout
rq_1 = record { bytes = 8; fields = [] }

abbrev rq_2 : Layout
rq_2 = record { bytes = 16; fields = [] }

abbrev rq_4 : Layout
rq_4 = record { bytes = 32; fields = [] }

abbrev rchan_buf_1 : Layout
rchan_buf_1 = record { bytes = 32; fields = [] }

abbrev blk_mq_ctx_ty_1_1 : Layout
blk_mq_ctx_ty_1_1 = record { bytes = 8; fields = [] }

abbrev blk_mq_hw_ctx_ty_1_1 : Layout
blk_mq_hw_ctx_ty_1_1 = record { bytes = 32; fields = [] }

abbrev bpf_cgroup_storage_map_1 : Layout
bpf_cgroup_storage_map_1 = record { bytes = 32; fields = [] }

abbrev inet_hashinfo_1 : Layout
inet_hashinfo_1 = record { bytes = 8; fields = [] }

abbrev kioctx_ty_3_1 : Layout
kioctx_ty_3_1 = record { bytes = 8; fields = [] }

abbrev xsk_buff_pool_2 : Layout
xsk_buff_pool_2 = record { bytes = 32; fields = [] }

abbrev wpan_phy_1 : Layout
wpan_phy_1 = record { bytes = 24; fields = [] }

-- All of them.
abbrev pub paddings : List Layout
paddings =
    devlink_2 ∷ sched_entity_1 ∷ sched_entity_2 ∷ fpu_1 ∷ zone_1 ∷ zone_3 ∷ pglist_data_1
    ∷ pglist_data_3 ∷ rseq_1 ∷ list_lru_node_1 ∷ bpf_raw_event_map_1 ∷ srcu_data_1 ∷ module_1
    ∷ taskstats_1 ∷ bpf_map_1 ∷ bpf_map_2 ∷ psi_group_cpu_1 ∷ psi_group_cpu_2 ∷ sbq_wait_state_1
    ∷ netns_frags_1 ∷ netns_frags_2 ∷ netns_ipv4_1 ∷ netns_ipv4_2 ∷ dst_ops_1 ∷ netns_ipv6_1
    ∷ netns_ipv6_2 ∷ netns_ipv6_3 ∷ netns_xfrm_1 ∷ netns_xfrm_2 ∷ net_1 ∷ net_2 ∷ net_3
    ∷ bpf_offloaded_map_1 ∷ socket_wq_1 ∷ skb_ext_1 ∷ dql_2 ∷ qdisc_1 ∷ netdev_rx_queue_1
    ∷ bpf_prog_stats_1 ∷ irqaction_1 ∷ irq_desc_1 ∷ files_struct_1 ∷ files_struct_2
    ∷ pool_workqueue_1 ∷ worker_pool_1 ∷ cfs_rq_ty_1_1 ∷ cfs_rq_1 ∷ cfs_rq_2 ∷ task_group_2 ∷ rq_1
    ∷ rq_2 ∷ rq_4 ∷ rchan_buf_1 ∷ blk_mq_ctx_ty_1_1 ∷ blk_mq_hw_ctx_ty_1_1
    ∷ bpf_cgroup_storage_map_1 ∷ inet_hashinfo_1 ∷ kioctx_ty_3_1 ∷ xsk_buff_pool_2 ∷ wpan_phy_1 ∷ []
