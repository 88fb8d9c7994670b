-- ===== src/Init/Privileges.antt =====
-- `drop_privileges` of src/jail/child_init.rs.
use eval_python.Prelude.Traced.{Traced, ◌>>◌, context}
use eval_python.Sys.Capabilities.{
  Capabilities, PrivilegeCall, PrivilegeKernel, set_all_securebits, capset,
}

abbrev pub no_capabilities : Capabilities
no_capabilities = record {
  effective = 0;
  permitted = 0;
  inheritable = 0;
  ambient = 0;
  bounding = 0;
}

unfoldable pub drop_privileges : PrivilegeKernel → Traced PrivilegeCall (Unit {0})
drop_privileges kernel = do
  context "set_all_securebits" (set_all_securebits kernel)
  context "capset" (capset kernel no_capabilities)
