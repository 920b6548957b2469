-- ===== src/Prelude/Results.antt =====
-- Python's exceptions as values: the three that the modelled code lets through or catches.

-- psycopg.OperationalError and aiomqtt.MqttError are caught by the reconnect loop; an
-- OverflowError, of a datetime or a timedelta out of range, is caught nowhere.
pub data Exn : Type 0 where
  operational_error mqtt_error overflow_error : Exn

pub data Result {ℓ} (A : Type ℓ) : Type ℓ where
  ok : A → Result A
  raised : Exn → Result A

module _ {ℓ κ} {A : Type ℓ} {B : Type κ} where
  infixl 5 ◌>>=◌
  abbrev pub ◌>>=◌ : Result A → (A → Result B) → Result B
  ok a >>= f = f a
  raised e >>= f = raised e
