-- ===== src/Soc/Tests.antt =====
-- Sixteen bytes of memory at 100.
use veripy.Base.{[]}
use veripy.Soc.{FlatMemory, add_region}

abbrev ram : FlatMemory
ram = add_region [] "ram" 100 16
