-- ===== src/Destinations/Examples.antt =====
-- Tests and instances for the destinations.
use shed.Prelude.{◌≡◌, refl, false, some, [], ◌∷◌, arith}
use shed.Types.{rtmp, recording}
use shed.Destinations.{Outputs, create, set_enabled}
use shed.Destinations.Toggled.{Toggled, set_enabled-Toggled}

-- Destination 1 is enabled, 2 is not.
abbrev outputs : Outputs
outputs = record {
  rows =
      record { id = some 1; name = "a"; kind = some (rtmp "rtmp://a" "k"); enabled = 1 }
      ∷ record { id = some 2; name = "b"; kind = some (recording "b.flv"); enabled = 0 }
      ∷ [];
  ws = [];
}

new_destination_is_enabled :
    (create 3 "c" (recording "c.flv") (record { rows = []; ws = [] })).rows
    ≡ record { id = some 3; name = "c"; kind = some (recording "c.flv"); enabled = 1 } ∷ []
unfolding create
new_destination_is_enabled = refl

set_enabled-Toggled_example : Toggled 1 false outputs (set_enabled 1 false outputs)
set_enabled-Toggled_example = set_enabled-Toggled 1 false outputs (omega arith)
