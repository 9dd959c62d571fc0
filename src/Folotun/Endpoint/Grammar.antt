-- ===== src/Folotun/Endpoint/Grammar.antt =====
-- The names that `ValidateEndpointAddress` of main/folotun/transport.go accepts.
use folo_xray_apple.Prelude.{
  ◌≤◌, ◌≡◌, ◌≢◌, ◌↔◌, refl, sym, ap, ◌∙◌, arith, true, false, List, [], ◌∷◌, ◌++◌, Option, none,
  length, All, ok, Bytes, bytes_eq, bytes_eq_refl, is_empty, split, join, join-split, split-ne-nil,
  trim_space,
}
use folo_xray_apple.Hostname.{
  IsLdh, IsLabel, IsHostname, all_ldh-IsLabel, IsLabel-bad_shape, All-all_ldh,
}
use folo_xray_apple.Hostname.Labels.{split-IsHostname}
use folo_xray_apple.Hostname.Ends.{IsHostname-ne, trim_space-IsHostname}
use folo_xray_apple.Folotun.Endpoint.{
  Ip, any_forbidden, check_labels, max_endpoint_address_length, validate_endpoint_address,
}

check_labels-All : (labels : List Bytes) → check_labels labels ≡ ok tt → All IsLabel labels
unfolding check_labels
check_labels-All [] h = tt
check_labels-All (label ∷ labels) h = ground (arith, all_ldh-IsLabel label, check_labels-All labels)

All-check_labels : (labels : List Bytes) → All IsLabel labels → check_labels labels ≡ ok tt
unfolding check_labels
All-check_labels [] h = refl
All-check_labels (label ∷ labels) h =
    ground
      (arith, IsLabel-bad_shape label h.0, All-all_ldh label h.0.ldh, All-check_labels labels h.1)

any_forbidden-append :
    (xs ys : Bytes)
    → any_forbidden xs ≡ false
    → any_forbidden ys ≡ false
    → any_forbidden (xs ++ ys) ≡ false
unfolding any_forbidden
any_forbidden-append [] ys p q = q
any_forbidden-append (x ∷ xs) ys p q = ground (arith, any_forbidden-append xs ys)

any_forbidden-ldh : (s : Bytes) → All IsLdh s → any_forbidden s ≡ false
unfolding any_forbidden
any_forbidden-ldh [] h = refl
any_forbidden-ldh (c ∷ cs) h = ground (arith, any_forbidden-ldh cs h.1)

any_forbidden-join :
    (labels : List Bytes) → All IsLabel labels → any_forbidden (join b'.' labels) ≡ false
unfolding any_forbidden
any_forbidden-join [] h = refl
any_forbidden-join (label ∷ []) h = any_forbidden-ldh label h.0.ldh
any_forbidden-join (label ∷ next ∷ labels) h =
    any_forbidden-append label (b'.' ∷ join b'.' (next ∷ labels)) (any_forbidden-ldh label h.0.ldh)
      (ground (arith, any_forbidden-join (next ∷ labels) h.1))

is_empty-ne : (s : Bytes) → s ≢ [] → is_empty s ≡ false
unfolding is_empty
is_empty-ne [] n = absurd (n refl)
is_empty-ne (c ∷ cs) n = refl

module _ (parse_ip : Bytes → Option Ip) where
  accepted-IsHostname :
      (address : Bytes)
      → parse_ip address ≡ none
      → validate_endpoint_address parse_ip address ≡ ok tt
      → (length address ≤ max_endpoint_address_length) × IsHostname address
  unfolding validate_endpoint_address
  accepted-IsHostname address n h =
      let labels : check_labels (split b'.' address) ≡ ok tt = ground arith in
      (
        ground arith,
        record {
          labels = split b'.' address;
          some_label = split-ne-nil b'.' address;
          each = check_labels-All (split b'.' address) labels;
          joined = sym (join-split b'.' address);
        },
      )

  IsHostname-accepted :
      (address : Bytes)
      → parse_ip address ≡ none
      → length address ≤ max_endpoint_address_length
      → IsHostname address
      → validate_endpoint_address parse_ip address ≡ ok tt
  unfolding validate_endpoint_address
  IsHostname-accepted address n l h =
      let pieces = split-IsHostname address h in
      let labels : check_labels (split b'.' address) ≡ ok tt =
        ap check_labels pieces ∙ All-check_labels h.labels h.each in
      let clean : any_forbidden address ≡ false =
        ap any_forbidden h.joined ∙ any_forbidden-join h.labels h.each in
      let unpadded : bytes_eq (trim_space address) address ≡ true =
        rw (trim_space-IsHostname address h) (bytes_eq_refl address) in
      ground (arith, labels, clean, unpadded, is_empty-ne address (IsHostname-ne address h))

  -- Of the addresses that are no IP literal, `ValidateEndpointAddress` accepts exactly the DNS names
  -- of at most 253 bytes: labels of 1 to 63 letters, digits and inner hyphens, joined by dots.
  pub validate_endpoint_address-IsHostname_iff :
      (address : Bytes)
      → parse_ip address ≡ none
      → (validate_endpoint_address parse_ip address ≡ ok tt)
        ↔ ((length address ≤ max_endpoint_address_length) × IsHostname address)
  validate_endpoint_address-IsHostname_iff address n =
      (accepted-IsHostname address n, λ h. IsHostname-accepted address n h.0 h.1)
