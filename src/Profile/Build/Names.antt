-- ===== src/Profile/Build/Names.antt =====
-- `validServerName` of main/folojson/folojson.go against the grammar of DNS names that its loop spells
-- out.
use folo_xray_apple.Prelude.{
  ◌≤◌, ◌≡◌, refl, ap, ◌∙◌, arith, true, false, List, [], ◌∷◌, length, All, Bytes, is_empty-eq,
  split,
}
use folo_xray_apple.Hostname.{IsLabel, IsHostname, IsLabel-bad_shape, All-all_ldh}
use folo_xray_apple.Hostname.Labels.{split-IsHostname, IsNameByte, IsHostname-IsNameByte}
use folo_xray_apple.Hostname.Ends.{IsHostname-ne, trim_space-IsHostname}
use folo_xray_apple.Profile.Build.{Lib, has_slash_or_space, valid_labels, valid_server_name}

slash_or_space-IsNameByte : (s : Bytes) → IsNameByte s → has_slash_or_space s ≡ false
unfolding has_slash_or_space
slash_or_space-IsNameByte [] h = refl
slash_or_space-IsNameByte (c ∷ cs) h = ground (arith, slash_or_space-IsNameByte cs h.1)

valid_labels-All : (labels : List Bytes) → All IsLabel labels → valid_labels labels ≡ true
unfolding valid_labels
valid_labels-All [] h = refl
valid_labels-All (label ∷ labels) h =
    ground
      (arith, IsLabel-bad_shape label h.0, All-all_ldh label h.0.ldh, valid_labels-All labels h.1)

module _ {Address Uuid : Type 0} (lib : Lib Address Uuid) where
  -- Whatever net.ParseAddress answers, every DNS name of at most 253 bytes is accepted.
  pub valid_server_name-IsHostname :
      (value : Bytes) → IsHostname value → length value ≤ 253 → valid_server_name lib value ≡ true
  unfolding valid_server_name
  valid_server_name-IsHostname value h short =
      let trimmed = trim_space-IsHostname value h in
      let clean = slash_or_space-IsNameByte value (IsHostname-IsNameByte value h) in
      let labels : valid_labels (split b'.' value) ≡ true =
        ap valid_labels (split-IsHostname value h) ∙ valid_labels-All h.labels h.each in
      ground (arith, is_empty-eq value, IsHostname-ne value h)
