-- ===== src/Ip/Edge.antt =====
-- `EdgeDetector`: compares its input with the one of the cycle before.
use veripy.Base.{◌≡◌, refl, Bool, true, false, not, ◌&&◌, ◌||◌, if◌then◌else◌}

pub record EdgeDetector : Type 0 where
  pub prev : Bool
  pub rise_r : Bool
  pub fall_r : Bool
  pub tog_r : Bool

-- `a ^ b` of one bit each.
abbrev pub xor_bit : Bool → Bool → Bool
xor_bit true b = not b
xor_bit false b = b

unfoldable pub sample : EdgeDetector → Bool → Bool → EdgeDetector
sample e reset d =
    if reset
    then record e { prev = false; rise_r = false; fall_r = false; tog_r = false }
    else record e {
      rise_r = d && not e.prev;
      fall_r = not d && e.prev;
      tog_r = xor_bit d e.prev;
      prev = d;
    }

-- After two cycles without reset the outputs compare the two inputs: `rise` and `fall` are never both
-- up, and `toggle` tells that one of them is.
pub sample-edges :
    (e : EdgeDetector) (d d' : Bool)
    → ((sample (sample e false d) false d').rise_r ≡ (not d && d'))
      × ((sample (sample e false d) false d').fall_r ≡ (d && not d'))
      × ((sample (sample e false d) false d').tog_r ≡ (
          (sample (sample e false d) false d').rise_r
          || (sample (sample e false d) false d').fall_r))
      × ((sample (sample e false d) false d').rise_r && (sample (sample e false d) false d').fall_r
          ≡ false)
unfolding sample
sample-edges e true true = (refl, refl, refl, refl)
sample-edges e true false = (refl, refl, refl, refl)
sample-edges e false true = (refl, refl, refl, refl)
sample-edges e false false = (refl, refl, refl, refl)
