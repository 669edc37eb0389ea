-- ===== src/Prelude/Json.antt =====
-- Values of serde_json, as src/ingestion and runtime-worker read and store them.
use Prim.Native.Nat.{ℕ, ◌/◌, ◌%◌, ◌^◌}
use mathlib.Core.Bool.{Bool, true, false, not}
use mathlib.Core.Option.{Option, none, some}
use eal_sync.Prelude.Booleans.{◌==◌, if◌then◌else◌}
use eal_sync.Prelude.Text.{Text, text_eq}

-- `Number`: an unsigned integer, a negative one -(n + 1), or the bits of a double.
pub data Number : Type 0 where
  pos_int neg_int float : ℕ → Number

mutual
  pub data Json : Type 0 where
    null : Json
    boolean : Bool → Json
    number : Number → Json
    string : Text → Json
    array : Items → Json
    object : Fields → Json

  pub data Items : Type 0 where
    nil : Items
    cons : Json → Items → Items

  pub data Fields : Type 0 where
    end : Fields
    field : Text → Json → Fields → Fields

-- `f64::is_finite`: the exponent is not all ones.
unfoldable pub is_finite : ℕ → Bool
is_finite bits = not (bits / 2 ^ 52 % 2 ^ 11 == 0x7ff)

-- `as_f64` followed by `is_finite`; an integer always has a finite double.
unfoldable pub is_finite_number : Json → Bool
is_finite_number (number (float bits)) = is_finite bits
is_finite_number (number _) = true
is_finite_number _ = false

-- `Value::as_str`, `as_object`, `as_array`, `as_u64`
unfoldable pub as_str : Json → Option Text
as_str (string s) = some s
as_str _ = none

unfoldable pub as_object : Json → Option Fields
as_object (object fs) = some fs
as_object _ = none

unfoldable pub as_array : Json → Option Items
as_array (array xs) = some xs
as_array _ = none

unfoldable pub as_u64 : Json → Option ℕ
as_u64 (number (pos_int n)) = some n
as_u64 _ = none

-- `Map::get`
unfoldable pub get : Text → Fields → Option Json
get k end = none
get k (field j v fs) = if text_eq j k then some v else get k fs
