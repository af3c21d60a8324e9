-- ===== src/Init/Registered.antt =====
-- What `init_libssh2` leaves in the module.
use text.Mathlib.Text.{◌==◌ as str_eq}
use pylibssh.Prelude.{
  ◌<◌, ◌≡◌, refl, arith, Bool, true, false, ◌||◌, String, List, [], ◌∷◌, none, some, if◌then◌else◌,
}
use pylibssh.Init.{
  TypeName, new_num, Api, api_pointers, fill_api, type_name, Module, init_type, init_types,
  add_constants, fill_module, Answers, init_error, init_module,
}

abbrev pub has : String → List String → Bool
has name [] = false
has name (n ∷ ns) = str_eq name n || has name ns

abbrev pub is_listener : TypeName → Bool
is_listener TypeName.listener = true
is_listener t = false

-- The module before `Error` is added.
abbrev fresh : Module
fresh = record { names = "_C_API" ∷ []; api = some fill_api }

place : (t : TypeName) → new_num t < api_pointers
unfolding new_num
place t = ground arith

named :
    (t : TypeName)
    → has (type_name t) (fill_module fresh).names ≡ (if is_listener t then false else true)
unfolding fill_module init_types init_type add_constants type_name
named TypeName.listener = refl
named t = refl

filled : (t : TypeName) → fill_api (new_num t) ≡ (if is_listener t then none else some t)
unfolding fill_api new_num
filled TypeName.listener = refl
filled t = refl

-- If the interpreter answers every call with success, the module has for each type of the extension
-- its name and, at the type's place in the C API, its function `_New`, except for the listener's,
-- whose name is missing and whose place is `NULL`, though the array has a place for it.
pub init_module-types :
    (t : TypeName) (a : Answers)
    → a.makes_module ≡ true
    → a.makes_api ≡ true
    → a.makes_error ≡ true
    → a.adds_error ≡ true
    → (m : Module) × (api : Api) × (init_module a ≡ some m)
      × (m.api ≡ some api)
      × (new_num t < api_pointers)
      × (has (type_name t) m.names ≡ (if is_listener t then false else true))
      × (api (new_num t) ≡ (if is_listener t then none else some t))
unfolding init_module init_error fill_module init_types init_type add_constants fill_api type_name
    new_num
init_module-types t a p q r s =
    (fill_module fresh, fill_api, rw (p, q, r, s) refl, refl, place t, named t, filled t)
