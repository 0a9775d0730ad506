-- ===== src/Bindings/Structs.antt =====
-- The units of bit-fields of all structs of jbm-ebpf/src/vmlinux.rs, a module for each struct.
pub mod Laws
pub mod Padding
use Padding.{paddings}
pub mod TaskStruct
pub mod TaskStructRh
pub mod SchedDlEntity
pub mod SignalStruct
pub mod ThreadStruct
pub mod DescStruct
pub mod PerfEventAttr
pub mod PerfMemDataSrc
pub mod PerfBranchEntry
pub mod PerfEventMmapPage
pub mod BpfProg
pub mod BpfInsn
pub mod Fpstate
pub mod Page
pub mod Kobject
pub mod DevPmInfo
pub mod Device
pub mod PercpuRef
pub mod HrtimerCpuBase
pub mod KernfsOpenFile
pub mod WakeupSource
pub mod OrcEntry
pub mod WritebackControl
pub mod SwapClusterInfo
pub mod FsContext
pub mod LinuxBinprm
pub mod CgroupSubsys
pub mod ElevatorQueue
pub mod FsParameter
pub mod SockCommon
pub mod Sock
pub mod TtyStruct
pub mod TtyPort
pub mod NetDevice
pub mod SkBuff
pub mod NfBridgeInfo
pub mod EthtoolOps
pub mod XdpFrame
pub mod RequestSock
pub mod PrefixInfo
pub mod IoApicRouteEntry
pub mod IrqAffinityDesc
pub mod X86MsiAddrLo
pub mod X86MsiAddrLoDmar
pub mod X86MsiAddrHi
pub mod X86MsiData
pub mod MsiDesc
pub mod IoapicAllocInfo
pub mod CpuidleDevice
pub mod CpuidleDriver
pub mod BlkFlushQueue
pub mod SockptrT
pub mod SockReuseport
pub mod Strparser
pub mod CdromDeviceInfo
pub mod Fib6Info
pub mod TtyAuditBuf
pub mod SubsysPrivate
pub mod DevicePrivate
pub mod PhyDevice
pub mod MiiBus
pub mod DevlinkPortPciPfAttrs
pub mod DevlinkPortPciVfAttrs
pub mod DevlinkPortPciSfAttrs
pub mod DevlinkPortAttrs
pub mod DevlinkPort
pub mod TlsContext
pub mod Devlink
pub mod DevlinkPortNewAttrs
use jbm.Prelude.{List, ◌∷◌}
use jbm.Bindings.Layout.{Layout}

-- The layouts of all the units.
abbrev pub layouts : List Layout
layouts =
    TaskStruct.bitfield_1 ∷ TaskStructRh.bitfield_1 ∷ SchedDlEntity.bitfield_1
    ∷ SignalStruct.bitfield_1 ∷ ThreadStruct.bitfield_1 ∷ DescStruct.bitfield_1
    ∷ PerfEventAttr.bitfield_1 ∷ PerfMemDataSrc.bitfield_1 ∷ PerfBranchEntry.bitfield_1
    ∷ PerfEventMmapPage.bitfield_1 ∷ BpfProg.bitfield_1 ∷ BpfInsn.bitfield_1 ∷ Fpstate.bitfield_1
    ∷ Page.bitfield_1 ∷ Kobject.bitfield_1 ∷ DevPmInfo.bitfield_1 ∷ DevPmInfo.bitfield_2
    ∷ DevPmInfo.bitfield_3 ∷ Device.bitfield_1 ∷ PercpuRef.bitfield_1 ∷ HrtimerCpuBase.bitfield_1
    ∷ KernfsOpenFile.bitfield_1 ∷ WakeupSource.bitfield_1 ∷ OrcEntry.bitfield_1
    ∷ WritebackControl.bitfield_1 ∷ SwapClusterInfo.bitfield_1 ∷ FsContext.bitfield_1
    ∷ LinuxBinprm.bitfield_1 ∷ CgroupSubsys.bitfield_1 ∷ ElevatorQueue.bitfield_1
    ∷ FsParameter.bitfield_1 ∷ SockCommon.bitfield_1 ∷ Sock.bitfield_1 ∷ Sock.bitfield_2
    ∷ TtyStruct.bitfield_1 ∷ TtyStruct.bitfield_2 ∷ TtyPort.bitfield_1 ∷ NetDevice.bitfield_2
    ∷ NetDevice.bitfield_3 ∷ NetDevice.bitfield_4 ∷ SkBuff.bitfield_1 ∷ SkBuff.bitfield_2
    ∷ SkBuff.bitfield_3 ∷ NfBridgeInfo.bitfield_1 ∷ EthtoolOps.bitfield_1 ∷ XdpFrame.bitfield_1
    ∷ RequestSock.bitfield_1 ∷ PrefixInfo.bitfield_1 ∷ IoApicRouteEntry.bitfield_1
    ∷ IrqAffinityDesc.bitfield_1 ∷ X86MsiAddrLo.bitfield_1 ∷ X86MsiAddrLoDmar.bitfield_1
    ∷ X86MsiAddrHi.bitfield_1 ∷ X86MsiData.bitfield_1 ∷ MsiDesc.bitfield_1
    ∷ IoapicAllocInfo.bitfield_1 ∷ CpuidleDevice.bitfield_1 ∷ CpuidleDriver.bitfield_1
    ∷ BlkFlushQueue.bitfield_1 ∷ SockptrT.bitfield_1 ∷ SockReuseport.bitfield_1
    ∷ Strparser.bitfield_1 ∷ CdromDeviceInfo.bitfield_1 ∷ CdromDeviceInfo.bitfield_2
    ∷ Fib6Info.bitfield_1 ∷ TtyAuditBuf.bitfield_1 ∷ SubsysPrivate.bitfield_1
    ∷ DevicePrivate.bitfield_1 ∷ PhyDevice.bitfield_1 ∷ MiiBus.bitfield_1
    ∷ DevlinkPortPciPfAttrs.bitfield_1 ∷ DevlinkPortPciVfAttrs.bitfield_1
    ∷ DevlinkPortPciSfAttrs.bitfield_1 ∷ DevlinkPortAttrs.bitfield_1 ∷ DevlinkPort.bitfield_1
    ∷ TlsContext.bitfield_1 ∷ Devlink.bitfield_1 ∷ DevlinkPortNewAttrs.bitfield_1 ∷ paddings
