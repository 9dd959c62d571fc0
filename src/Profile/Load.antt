-- ===== src/Profile/Load.antt =====
-- upstream/xray-core/main/folojson/folojson.go: `Load`. The JSON decoder is a parameter: `decode_config`
-- is its Decode with unknown fields refused, with what is left after the first value, and
-- `decode_any` its next Decode.
pub mod Limits
pub mod Configs
use folo_xray_apple.Prelude.{
  ℕ, zero, suc, ◌+◌, ◌*◌, ◌-◌, Bool, true, false, ◌||◌, List, [], ◌∷◌, ◌++◌, Option, none, some,
  ltb, if◌then◌else◌, length, take, Bytes, is_empty, Outcome, ok, err, ◌>>=◌, ◌>>◌, fail_if,
}
use folo_xray_apple.Folotun.Stream.{Reader, got, broke}
use folo_xray_apple.Profile.Config.{
  Config, ProfileError, not_a_reader, read_failed, empty_or_too_large, decode_failed, trailing_data,
  trailing_decode_failed, CoreConfig,
}
use folo_xray_apple.Profile.Build.{Lib, or_missing, build}

abbrev pub max_config_bytes : ℕ
max_config_bytes = 4 * 1024 * 1024

pub data Trailing : Type 0 where
  at_end value malformed : Trailing

pub record Json : Type 0 where
  pub decode_config : Bytes → Option (Config × Bytes)
  pub decode_any : Bytes → Trailing

abbrev after : Bytes → Option Bytes → Option Bytes
after front none = none
after front (some rest) = some (front ++ rest)

-- `io.ReadAll(io.LimitReader(reader, n))`: `none` is an error of the reader.
unfoldable pub read_limited : ℕ → Reader → Option Bytes
read_limited zero r = some []
read_limited (suc n) [] = some []
read_limited (suc n) (broke ∷ r) = none
read_limited (suc n) (got c ∷ r) = after (take (suc n) c) (read_limited (suc n - length c) r)

-- The result of the second `Decode`.
abbrev pub check_trailing : Trailing → Outcome ProfileError (Unit {0})
check_trailing at_end = ok tt
check_trailing value = err trailing_data
check_trailing malformed = err trailing_decode_failed

module _ {Address Uuid : Type 0} (lib : Lib Address Uuid) (json : Json) where
  -- `Load` from the read bytes on.
  unfoldable pub load_bytes : Bytes → Outcome ProfileError (CoreConfig Address)
  load_bytes bytes = do
    fail_if (is_empty bytes || ltb max_config_bytes (length bytes)) empty_or_too_large
    (config, rest) ← or_missing decode_failed (json.decode_config bytes)
    check_trailing (json.decode_any rest)
    build lib config

  -- `Load`: `none` is an input that is not an io.Reader.
  unfoldable pub load : Option Reader → Outcome ProfileError (CoreConfig Address)
  unfolding load_bytes
  load none = err not_a_reader
  load (some r) = do
    bytes ← or_missing read_failed (read_limited (max_config_bytes + 1) r)
    load_bytes bytes
