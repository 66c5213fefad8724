-- ===== src/Tests/Modules.antt =====
-- The theorems on the search for modules, at the sample installation.
use whatsup.Prelude.{
  strchr, ◌++◌, ◌≡◌, ◌==◌, All, refl, true, false, some, [], ◌∷◌, codes, str_eq, contains,
}
use whatsup.Module.Find.{opened, load_module, find_module}
use whatsup.Module.Backend.{
  backend_module_callback, backend_module_info_sym, backend_module_signature, set_backend,
}
use whatsup.Module.Order.{find_module-first, find_module-unknown}
use whatsup.Module.Signature.{dot_free, IsModuleFile, module_file}
use whatsup.Tests.Sample.{sample_env, new_state, SampleState}

-- the state in which the backend is loaded
with_backend : SampleState
unfolding new_state
with_backend = set_backend (some 1) (some 1) (opened new_state)

pingd_loads :
    load_module sample_env
      (backend_module_callback sample_env)
      backend_module_info_sym
      (codes "/lib")
      (codes "nodeupdown_backend_pingd.so")
      new_state
    ≡ (some true, with_backend)
unfolding load_module backend_module_callback sample_env new_state with_backend
pingd_loads = refl

find_module-first_example :
    find_module sample_env
      (backend_module_callback sample_env)
      backend_module_info_sym
      (codes "nodeupdown_backend_cerebro.so" ∷ codes "nodeupdown_backend_pingd.so" ∷ [])
      backend_module_signature
      new_state
    ≡ (some true, with_backend)
unfolding sample_env contains str_eq
find_module-first_example =
    find_module-first sample_env (backend_module_callback sample_env) backend_module_info_sym
      (codes "README" ∷ codes "nodeupdown_backend_pingd.so" ∷ [])
      (codes "nodeupdown_backend_cerebro.so" ∷ []) (codes "nodeupdown_backend_pingd.so") []
      backend_module_signature new_state with_backend refl refl (refl, tt) refl pingd_loads

-- "README" is no backend's name.
readme : IsModuleFile backend_module_signature (codes "README") → ⊥
readme (module_file name a e) = cc e

signature_dots : All (λ c. (c == b'.') ≡ false) backend_module_signature
unfolding strchr
signature_dots = dot_free backend_module_signature refl

pingd_file : IsModuleFile backend_module_signature (codes "nodeupdown_backend_pingd.so")
unfolding strchr
pingd_file =
    module_file (codes "pingd") (dot_free (backend_module_signature ++ codes "pingd") refl) refl

find_module-unknown_example :
    find_module sample_env
      (backend_module_callback sample_env)
      backend_module_info_sym
      (codes "nodeupdown_backend_other.so" ∷ [])
      backend_module_signature
      new_state
    ≡ (some true, with_backend)
unfolding sample_env contains str_eq
find_module-unknown_example =
    find_module-unknown sample_env (backend_module_callback sample_env) backend_module_info_sym
      (codes "README" ∷ []) (codes "nodeupdown_backend_pingd.so") []
      (codes "nodeupdown_backend_other.so" ∷ []) backend_module_signature new_state with_backend
      refl refl (refl, tt) signature_dots (readme, tt) pingd_file pingd_loads
