-- ===== src/Bindings/Structs/LinuxBinprm.antt =====
-- The bit-fields of `linux_binprm` (jbm-ebpf/src/vmlinux.rs).
use jbm.Prelude.{[], ◌∷◌}
use jbm.Bindings.Layout.{BitField, bit_field, Layout}

abbrev pub deprecated_called_set_creds : BitField
deprecated_called_set_creds = bit_field 0 1 32

abbrev pub active_secureexec : BitField
active_secureexec = bit_field 1 1 32

abbrev pub secureexec : BitField
secureexec = bit_field 2 1 32

abbrev pub called_exec_mmap : BitField
called_exec_mmap = bit_field 3 1 32

abbrev pub point_of_no_return : BitField
point_of_no_return = bit_field 4 1 32

abbrev pub preserve_creds : BitField
preserve_creds = bit_field 5 1 32

abbrev pub bitfield_1 : Layout
bitfield_1 = record {
  bytes = 1;
  fields =
      deprecated_called_set_creds ∷ active_secureexec ∷ secureexec ∷ called_exec_mmap
      ∷ point_of_no_return ∷ preserve_creds ∷ [];
}
