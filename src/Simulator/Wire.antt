-- ===== src/Simulator/Wire.antt =====
-- src/planter_telemetry/simulator/wire.py: the wire form of an emission. The serializer of pydantic and
-- json.loads and json.dumps are parameters; a dict is the list of its items.
use planter_telemetry.Simulator.Stream.{
  Emission, CorruptionMode, truncated, wrong_type, missing_field,
}
use planter_telemetry.Contract.Reading.{Bytes, TelemetryV1}
use planter_telemetry.Prelude.{
  ◌/◌, List, [], ◌∷◌, Text, text, text_eq, take, length, Option, none, some, if◌then◌else◌,
}

-- `V` is the type of the JSON values, with the string "high" among them.
pub record WireCodec (F V : Type 0) : Type 0 where
  -- reading.model_dump_json().encode()
  pub encode : TelemetryV1 F → Bytes
  pub loads : Bytes → List (Text × V)
  -- json.dumps(obj).encode()
  pub dumps : List (Text × V) → Bytes
  pub high : V

module _ {V : Type 0} where
  -- obj[name] = value
  unfoldable set_item : Text → V → List (Text × V) → List (Text × V)
  set_item name value [] = (name, value) ∷ []
  set_item name value ((n, v) ∷ items) =
      let rest = set_item name value items in
      if text_eq n name then (n, value) ∷ items else (n, v) ∷ rest

  -- del obj[name], of a name that is there
  unfoldable del_item : Text → List (Text × V) → List (Text × V)
  del_item name [] = []
  del_item name ((n, v) ∷ items) =
      let rest = del_item name items in if text_eq n name then items else (n, v) ∷ rest

module _ {F V : Type 0} (w : WireCodec F V) where
  -- corrupt
  unfoldable pub corrupt : Bytes → CorruptionMode → Bytes
  unfolding set_item del_item
  corrupt payload truncated = take (length payload / 2) payload
  corrupt payload wrong_type = w.dumps (set_item (text "water_level") w.high (w.loads payload))
  corrupt payload missing_field = w.dumps (del_item (text "device_id") (w.loads payload))

  abbrev pub corrupted : Bytes → Option CorruptionMode → Bytes
  corrupted payload none = payload
  corrupted payload (some mode) = corrupt payload mode

  -- `payload`, as the publisher and the sample send it
  unfoldable pub payload_of : Emission F → Bytes
  unfolding corrupt
  payload_of emission = corrupted (w.encode emission.reading) emission.corruption
