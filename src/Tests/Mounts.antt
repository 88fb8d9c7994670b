-- ===== src/Tests/Mounts.antt =====
-- The mount namespace of one jail, on a system that grants everything.
use eval_python.Prelude.{true, done}
use eval_python.Init.Namespaces.{NamespaceKernel}
use eval_python.Tests.Streams.{opening}

abbrev pub mounting : NamespaceKernel
mounting = record {
  exists = λ i path. true;
  is_dir = λ i path. done true;
  answer = λ c. done tt;
  streams = opening;
  debug = λ path. path;
  debug_mount = λ m. m.target;
}
