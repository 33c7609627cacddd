-- ===== src/Quarantine/Resource.antt =====
-- `ResourceID` of internal/wardveil/scan.go against `parseScope` of internal/quarantine/service.go.
use goreecloud_drive.Prelude.{
  ℕ, ◌+◌, ◌≡◌, refl, ap, ◌∙◌, true, false, some, [], ◌∷◌, ◌++◌, arith, &&-eq-true,
}
use goreecloud_drive.Prelude.Text.{
  Str, str, ◌==◌, ==_refl, has_byte, split, split-append, split-without,
}
use goreecloud_drive.Wardveil.Types.{FileResource, resource_id_of, drive_file_resource_type}
use goreecloud_drive.Ids.{valid_storage_id, storage_bytes, storage_byte}
use goreecloud_drive.Quarantine.{parse_scope}

storage_bytes-no_colon : (i : ℕ) (s : Str) → storage_bytes i s ≡ true → has_byte b':' s ≡ false
unfolding storage_bytes storage_byte has_byte
storage_bytes-no_colon i [] h = refl
storage_bytes-no_colon i (c ∷ s) h = ground (arith, storage_bytes-no_colon (i + 1) s)

valid_id-no_colon :
    (s : Str) → valid_storage_id s ≡ true → (has_byte b':' s ≡ false) × ((s == []) ≡ false)
unfolding valid_storage_id ◌==◌
valid_id-no_colon [] h = cc
valid_id-no_colon (c ∷ s) h = (storage_bytes-no_colon 0 (c ∷ s) (&&-eq-true _ _ h).1, refl)

split_resource :
    (r : FileResource)
    → has_byte b':' r.space_id ≡ false
    → has_byte b':' r.node_id ≡ false
    → split b':' (resource_id_of r) ≡ str "drive" ∷ r.space_id ∷ str "file" ∷ r.node_id ∷ []
unfolding resource_id_of has_byte
split_resource r hs hn =
    split-append b':' (str "drive") (r.space_id ++ (b':' ∷ (str "file" ++ (b':' ∷ r.node_id)))) refl
    ∙ ap (λ t. str "drive" ∷ t)
        (split-append b':' r.space_id (str "file" ++ (b':' ∷ r.node_id)) hs
          ∙ ap (λ t. r.space_id ∷ t)
              (split-append b':' (str "file") r.node_id refl
                ∙ ap (λ t. str "file" ∷ t) (split-without b':' r.node_id hn)))

-- The resource ID that `FileResource.ResourceID` writes for a Space and a node with valid storage
-- identifiers parses back, in `parseScope`, to that Space and node.
pub parse_scope-resource_id :
    (r : FileResource)
    → valid_storage_id r.space_id ≡ true
    → valid_storage_id r.node_id ≡ true
    → parse_scope
        (record { resource_type = drive_file_resource_type; resource_id = resource_id_of r })
      ≡ some (r.space_id, r.node_id)
unfolding parse_scope
parse_scope-resource_id r vs vn =
    let (cs, ns) = valid_id-no_colon r.space_id vs in
    let (cn, nn) = valid_id-no_colon r.node_id vn in
    ground (
      arith,
      split_resource r cs cn,
      ==_refl drive_file_resource_type,
      ==_refl (str "drive"),
      ==_refl (str "file"),
    )
