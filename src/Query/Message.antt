-- ===== src/Query/Message.antt =====
-- `nodeupdown_strerror` and `nodeupdown_errormsg`.
use whatsup.Prelude.{
  Option, List, [], ◌∷◌, Name, codes, leb, get_elem?, if◌then◌else◌, ℤ, pos, negsuc,
}
use whatsup.Handle.Err
use whatsup.Handle.State.{Handle}
use whatsup.Handle.Checks.{nodeupdown_errnum}

abbrev pub nodeupdown_errmsg : List Name
nodeupdown_errmsg =
    codes "success"
    ∷ codes "nodeupdown handle is null"
    ∷ codes "connection to server error"
    ∷ codes "connection to server timeout"
    ∷ codes "improper hostname error"
    ∷ codes "data already loaded"
    ∷ codes "data not loaded"
    ∷ codes "array or string not large enough to store result"
    ∷ codes "incorrect parameters"
    ∷ codes "null pointer reached in list"
    ∷ codes "out of memory"
    ∷ codes "node not found"
    ∷ codes "not supported"
    ∷ codes "internal backend module error"
    ∷ codes "internal clusterlist module error"
    ∷ codes "internal config module error"
    ∷ codes "parse config file error"
    ∷ codes "invalid config file input"
    ∷ codes "internal config file error"
    ∷ codes "illegal nodeupdown handle"
    ∷ codes "internal system error"
    ∷ codes "error number out of range"
    ∷ []

-- the array at an index; `none` is a read past its end
unfoldable pub nodeupdown_strerror : ℤ → Option Name
nodeupdown_strerror (negsuc n) = get_elem? nodeupdown_errmsg Err.errnum_range
nodeupdown_strerror (pos n) =
    if leb n Err.errnum_range
    then get_elem? nodeupdown_errmsg n
    else get_elem? nodeupdown_errmsg Err.errnum_range

unfoldable pub nodeupdown_errormsg : {H T : Type 0} → Option (Handle H T) → Option Name
nodeupdown_errormsg handle = nodeupdown_strerror (pos (nodeupdown_errnum handle))
