-- ===== src/Ip/Timing/Tests.antt =====
-- Witnesses of the counters.
use veripy.Base.{false}
use veripy.Ip.Timing.{Debouncer}

abbrev counting : Debouncer
counting = record { threshold = 4; cnt = 1; qr = false }
