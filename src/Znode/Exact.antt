-- ===== src/Znode/Exact.antt =====
-- The paths of a group, and whether `snprintf` cuts them off.
use ua_rate_throttling.Common.{
  ◌≤◌, ◌≡◌, refl, ap, ◌∙◌, ◌++◌, Bytes, codes, length, snprintf, snprintf_fits, arith, ◌<◌,
  length-append,
}
use ua_rate_throttling.Common.Cstdlib.{hex_digits}
use ua_rate_throttling.Guid.{Guid, print_guid}
use ua_rate_throttling.Znode.{
  Globals, set_group_guid_path, set_queue_path, buffer_size, path_size, get_active_path,
}

-- A printed GUID has 38 bytes.
pub length-print_guid : (g : Guid) → length (print_guid g) ≡ 38
unfolding print_guid hex_digits
length-print_guid g = refl

-- The two globals of a group, once both are set.
abbrev pub set_group : Bytes → Globals → Globals
set_group group_guid g = set_queue_path (set_group_guid_path group_guid g)

module _ (text : Bytes) (g : Globals) (short : length text ≤ 1000) where
  group_guid_path-set_group : (set_group text g).group_guid_path ≡ codes "/Servers/" ++ text
  unfolding set_queue_path set_group_guid_path
  group_guid_path-set_group =
      ap (snprintf path_size) (snprintf_fits buffer_size (codes "/Servers/" ++ text) (omega arith))
      ∙ snprintf_fits path_size (codes "/Servers/" ++ text) (omega arith)

  queue_text_fits : length ((codes "/Servers/" ++ text) ++ codes "/Queue") < path_size
  queue_text_fits = omega (arith, length-append (codes "/Servers/" ++ text) (codes "/Queue"))

  server_queue_path-set_group :
      (set_group text g).server_queue_path ≡ (codes "/Servers/" ++ text) ++ codes "/Queue"
  unfolding set_queue_path
  server_queue_path-set_group =
      ap (λ t. snprintf path_size (snprintf buffer_size (t ++ codes "/Queue")))
        group_guid_path-set_group
      ∙ ap (snprintf path_size) (snprintf_fits buffer_size _ (omega (arith, queue_text_fits)))
      ∙ snprintf_fits path_size _ queue_text_fits

  active_path-set_group :
      get_active_path (set_group text g) ≡ (codes "/Servers/" ++ text) ++ codes "/Active"
  unfolding get_active_path
  active_path-set_group =
      ap (λ t. snprintf buffer_size (t ++ codes "/Active")) group_guid_path-set_group
      ∙ snprintf_fits buffer_size ((codes "/Servers/" ++ text) ++ codes "/Active")
          (omega (arith, length-append (codes "/Servers/" ++ text) (codes "/Active")))

-- Whatever the globals held, once a group is set its three paths are `/Servers/{GUID}`, and that
-- path with `/Queue` and `/Active` behind it, none of them cut off.
pub group_paths :
    (guid : Guid) (g : Globals)
    → ((set_group (print_guid guid) g).group_guid_path ≡ codes "/Servers/" ++ print_guid guid)
      × ((set_group (print_guid guid) g).server_queue_path
          ≡ (codes "/Servers/" ++ print_guid guid) ++ codes "/Queue")
      × (get_active_path (set_group (print_guid guid) g)
          ≡ (codes "/Servers/" ++ print_guid guid) ++ codes "/Active")
group_paths guid g = (
  group_guid_path-set_group (print_guid guid) g (omega (arith, length-print_guid guid)),
  server_queue_path-set_group (print_guid guid) g (omega (arith, length-print_guid guid)),
  active_path-set_group (print_guid guid) g (omega (arith, length-print_guid guid)),
)
