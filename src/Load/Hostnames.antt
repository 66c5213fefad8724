-- ===== src/Load/Hostnames.antt =====
-- Which lists of host names the configuration file may have.
use whatsup.Prelude.{
  ◌≡◌, refl, Bool, true, ◌&&◌, none, some, List, [], ◌∷◌, Name, length, leb, if◌then◌else◌, arith,
}
use whatsup.Module.Info.{NodeupdownConfig}
use whatsup.Load.Config.{
  copy_hostnames, store_hostnames, cb_hostnames, config_hostnames_max, maxhostnamelen,
}

-- every name fits a slot of the array
abbrev pub all_fit : List Name → Bool
all_fit [] = true
all_fit (n ∷ ns) = leb (length n) maxhostnamelen && all_fit ns

copy_hostnames_lem : (ns : List Name) → copy_hostnames ns ≡ (if all_fit ns then some ns else none)
unfolding copy_hostnames
copy_hostnames_lem [] = refl
copy_hostnames_lem (n ∷ ns) = ground (arith, copy_hostnames_lem ns)

-- The option callback stores the host names as they stand if they are at most eight and each has at
-- most 64 characters, and refuses them all otherwise.
pub cb_hostnames_lem :
    (ns : List Name) (conf : NodeupdownConfig)
    → cb_hostnames ns conf ≡ (
        if leb (length ns) config_hostnames_max && all_fit ns
        then some (record conf { hostnames = ns })
        else none)
unfolding cb_hostnames store_hostnames
cb_hostnames_lem ns conf = ground (arith, copy_hostnames_lem ns)
