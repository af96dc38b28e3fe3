-- ===== src/Ports/TestHal/Tests.antt =====
-- The HAL of the tests at a concrete endpoint.
use rsmicro.Prelude.{◌≡◌, refl, false}
use rsmicro.Core.Types.{ok, ret, boolean}
use rsmicro.Ports.TestHal.{IsSized, init, set_input, rd, wr, get_output, endpoints_roundtrip}

init-IsSized : IsSized init
unfolding init
init-IsSized = record { inputs = refl; input_valid = refl; outputs = refl; output_valid = refl }

endpoints_roundtrip_example :
    ((set_input init 3 (boolean 1)).0 ≡ ok
      → init.fail_read ≡ false
      → ((rd (set_input init 3 (boolean 1)).1 3 (boolean 0)).0 ≡ ok)
        × ((rd (set_input init 3 (boolean 1)).1 3 (boolean 0)).1 ≡ boolean 1))
    × ((wr init 3 (boolean 1)).0 ≡ ok → get_output (wr init 3 (boolean 1)).1 3 ≡ ret (boolean 1))
endpoints_roundtrip_example = endpoints_roundtrip init 3 (boolean 1) (boolean 0) init-IsSized
