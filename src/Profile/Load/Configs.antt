-- ===== src/Profile/Load/Configs.antt =====
-- `Load` of main/folojson/folojson.go, alone and behind `copyConfig` of apple-wrapper/folo_apple.go.
use folo_xray_apple.Prelude.{
  ℕ, ◌+◌, ◌≤◌, ◌<◌, ◌≡◌, ap, ◌↔◌, arith, some, Option-cases, inl, inr, length, take, length-take,
  Bytes, is_empty-eq, ok, err,
}
use folo_xray_apple.Folotun.Stream.{Reader}
use folo_xray_apple.Folotun.Stream.Chunks.{contents}
use folo_xray_apple.Wrapper.Engine.{copy_config}
use folo_xray_apple.Profile.Config.{Config, CoreConfig, empty_or_too_large}
use folo_xray_apple.Profile.Build.{Lib, build}
use folo_xray_apple.Profile.Build.Whole.{IsAccepted, build-ok_iff}
use folo_xray_apple.Profile.Load.{max_config_bytes, Json, at_end, load_bytes, load}
use folo_xray_apple.Profile.Load.Limits.{IsUnbroken, read_limited-take, read_limited-IsUnbroken}

-- The bytes that `copyConfig` returns are at least one and at most four MiB.
copy_config-sized :
    (memory : Bytes) (size : ℕ) (bytes : Bytes)
    → size ≤ length memory
    → copy_config (some memory) size ≡ some bytes
    → (0 < length bytes) × (length bytes ≤ max_config_bytes)
unfolding copy_config
copy_config-sized memory size bytes enough e = ground (arith, length-take size memory)

-- `json` reads one value and then the end.
abbrev pub IsWhole : Json → Bytes → Config → Type 0
IsWhole json bytes c =
    (rest : Bytes) × (json.decode_config bytes ≡ some (c, rest)) × (json.decode_any rest ≡ at_end)

module _ {Address Uuid : Type 0} (lib : Lib Address Uuid) (json : Json) where
  pub load_bytes-ok_iff :
      (bytes : Bytes) (k : CoreConfig Address)
      → 0 < length bytes
      → length bytes ≤ max_config_bytes
      → (load_bytes lib json bytes ≡ ok k)
        ↔ ((c : Config) × IsWhole json bytes c × IsAccepted lib c k)
  unfolding load_bytes
  load_bytes-ok_iff bytes k ne short = elim (Option-cases (json.decode_config bytes)) [
    | inl e ↦ (ground (arith, is_empty-eq bytes), ground arith)
    | inr ((c, rest), e) ↦ (
      λ h.
          let ended : json.decode_any rest ≡ at_end = ground arith in
          let built : build lib c ≡ ok k = ground arith in
          (c, (rest, e, ended), (build-ok_iff lib c k).0 built),
      λ (d, (rest', e', ended), accepted).
          let built = (build-ok_iff lib d k).1 accepted in ground (arith, is_empty-eq bytes),
    )
  ]

  load_bytes-too_large :
      (bytes : Bytes)
      → max_config_bytes < length bytes
      → load_bytes lib json bytes ≡ err empty_or_too_large
  unfolding load_bytes
  load_bytes-too_large bytes over = ground arith

  -- A reader that gives more than four MiB is refused as too large, even if it fails after them.
  pub load-too_large :
      (r : Reader)
      → max_config_bytes < length (contents r)
      → load lib json (some r) ≡ err empty_or_too_large
  unfolding load load_bytes
  load-too_large r over =
      let read = read_limited-take (max_config_bytes + 1) r (omega arith) in
      let size = length-take (max_config_bytes + 1) (contents r) in
      rw read (load_bytes-too_large (take (max_config_bytes + 1) (contents r)) (omega arith))

  -- What FoloXrayStartJSON copies from its caller is neither cut nor refused for its size: read through
  -- any sequence of chunks without an error, `Load` accepts it exactly if the decoder finds one value
  -- and then the end, and the value is one of the three profiles.
  pub load-copy_config :
      (memory : Bytes) (size : ℕ) (bytes : Bytes) (r : Reader) (k : CoreConfig Address)
      → size ≤ length memory
      → copy_config (some memory) size ≡ some bytes
      → IsUnbroken r
      → contents r ≡ bytes
      → (load lib json (some r) ≡ ok k) ↔ ((c : Config) × IsWhole json bytes c × IsAccepted lib c k)
  unfolding load
  load-copy_config memory size bytes r k enough copied unbroken same =
      let (ne, short) = copy_config-sized memory size bytes enough copied in
      let read =
        read_limited-IsUnbroken (max_config_bytes + 1) r unbroken (omega (arith, ap length same)) in
      rw (read, same) (load_bytes-ok_iff bytes k ne short)
