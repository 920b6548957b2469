-- ===== src/Tests/Publishing.antt =====
-- src/planter_telemetry/simulator/publisher.py: run at concrete inputs.
use planter_telemetry.Simulator.Publisher.Run.{Moment, never, sleeping, message, run_publisher}
use planter_telemetry.Simulator.Publisher.Run.Sound.{handed, IsHonest, run_publisher-IsHonest}
use planter_telemetry.Simulator.Stream.{Emission, truncated, normal, late}
use planter_telemetry.Simulator.Wire.{WireCodec}
use planter_telemetry.Tests.Fixtures.{milli, reading_at}
use planter_telemetry.Prelude.Int.{ℤ, pos}
use planter_telemetry.Prelude.{ℕ, true, false, List, [], ◌∷◌, none, some, text, ◌≡◌, map, take}

-- a codec of a single payload
abbrev pub wire : WireCodec ℤ ℕ
wire = record {
  encode = λ reading. text "{}";
  loads = λ payload. [];
  dumps = λ items. text "{}";
  high = 0;
}

abbrev pub emitted : List (Emission ℤ)
emitted =
    record { publish_at = 3600000000; reading = reading_at 1; corruption = none; kind = normal }
    ∷ record {
      publish_at = 7200000000;
      reading = reading_at 2;
      corruption = some truncated;
      kind = normal;
    }
    ∷ record { publish_at = 7200000000; reading = reading_at 1; corruption = none; kind = late }
    ∷ []

-- The first message is refused; the second is taken, and the file cannot be touched; the interrupt comes
-- in the third one's sleep.
abbrev pub moments : List (Moment ℤ)
moments =
    record {
      elapsed = pos 0;
      interrupt = never;
      accepted = false;
      is_connected = false;
      touches = true;
    }
    ∷ record {
      elapsed = pos 9;
      interrupt = never;
      accepted = true;
      is_connected = true;
      touches = false;
    }
    ∷ record {
      elapsed = pos 20;
      interrupt = sleeping;
      accepted = true;
      is_connected = true;
      touches = true;
    }
    ∷ []

run_publisher-IsHonest_example :
    let s = run_publisher wire (pos 180000) 0 true emitted moments in
    (s.published ≡ map (message wire) (take (handed moments) emitted))
    × (s.is_closed ≡ true)
    × IsHonest s
run_publisher-IsHonest_example = run_publisher-IsHonest wire (pos 180000) 0 true emitted moments
