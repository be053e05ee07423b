-- ===== src/Traffic/Classifier/Detect.antt =====
-- classifier_detect.go: is an interface virtual? The answer is cached by name.
use tcsss.Prelude.{
  Bool, true, false, ◌||◌, Option, none, some, List, [], M, ◌>>=◌, return, if◌then◌else◌,
}
use tcsss.Text.Ops.{Text, bytes, mem, trim_space, is_empty, path_join}
use tcsss.Text.Maps.{lookup, insert}
use tcsss.Traffic.Env.{Env, eval_symlinks, read_link, read_file, History, ask, Shaper, call}
use tcsss.Traffic.Classifier.Patterns.{
  virtual_vendor_ids, virtual_driver_modules, has_internal_virtual_prefix,
  has_external_virtual_prefix, is_sysfs_virtual_path, normalize_identifier, path_base,
}

abbrev base_of : Option Text → Text
base_of none = []
base_of (some target) = path_base target

-- `readLinkBase`
unfoldable pub read_link_base : Env → Text → M History Text
unfolding path_base
read_link_base env path =
    ask (λ h. env.target h path) (read_link path) >>= λ target. return (base_of target)

-- `interfaceDriverModule`
unfoldable pub interface_driver_module : Env → Text → M History Text
unfolding read_link_base
interface_driver_module env sysfs_path = do
  module_name ← read_link_base env (path_join sysfs_path (bytes "device/driver/module"))
  if is_empty module_name
      then read_link_base env (path_join sysfs_path (bytes "device/driver"))
      else return module_name

abbrev vendor_of : Option Text → Text
vendor_of none = []
vendor_of (some content) = trim_space content

-- `interfaceVendor`
unfoldable pub interface_vendor : Env → Text → M History Text
interface_vendor env sysfs_path =
    let path = path_join sysfs_path (bytes "device/vendor") in
    ask (λ h. env.content h path) (read_file path) >>= λ content. return (vendor_of content)

abbrev resolves_virtual : Option Text → Bool
resolves_virtual none = false
resolves_virtual (some resolved) = is_sysfs_virtual_path resolved

abbrev listed : List Text → Text → Bool
listed names value = if is_empty value then false else mem (normalize_identifier value) names

-- `detectVirtualHardware`
unfoldable pub detect_virtual_hardware : Env → Text → M History Bool
detect_virtual_hardware env name =
    let sysfs_path = path_join (bytes "/sys/class/net") name in
    if has_internal_virtual_prefix name || has_external_virtual_prefix name then return true else do
      resolved ← ask (λ h. env.resolve h sysfs_path) (eval_symlinks sysfs_path)
      if resolves_virtual resolved then return true else do
        driver ← interface_driver_module env sysfs_path
        if listed virtual_driver_modules driver then return true else do
          vendor ← interface_vendor env sysfs_path
          return (listed virtual_vendor_ids vendor)

-- Stores a fresh answer.
abbrev remember : Text → Bool → M Shaper Bool
remember name is_virtual s =
    (is_virtual, record s { virtual_cache = insert name is_virtual s.virtual_cache })

abbrev answer_of : Env → Text → Option Bool → M Shaper Bool
answer_of env name none = call (detect_virtual_hardware env name) >>= remember name
answer_of env name (some cached) = return cached

-- `isVirtualInterface`
unfoldable pub is_virtual_interface : Env → Text → M Shaper Bool
is_virtual_interface env name s =
    if is_empty name then (false, s) else answer_of env name (lookup name s.virtual_cache) s
