-- ===== src/Protocol/Examples.antt =====
-- A message of src/tcppipe.hpp.
use cpp_shared.Prelude.{Bytes, codes}

abbrev message : Bytes
message = codes "service:forward,from:a:1,to:b:2,content:hi"
