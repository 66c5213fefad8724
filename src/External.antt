-- ===== src/External.antt =====
-- What the code calls and does not implement: the hostlist library (src/libcommon/hostlist.h, from
-- SLURM) and the hash table library (src/libcommon/hash.h, from LSD-Tools). `H` is a `hostlist_t`
-- and `T` a `hash_t` that maps node names to up times.
use whatsup.Prelude.{
  ℕ, ◌≡◌, ◌≢◌, Bool, false, Option, none, some, List, [], ◌∷◌, ◌++◌, Name, contains, str_eq, length,
  is_some,
}

pub record HostlistOps (H : Type 0) : Type 0 where
  -- `hostlist_create(NULL)`
  pub create : Option H
  -- `hostlist_push`, `none` where it returns 0
  pub push : H → Name → Option H
  -- `hostlist_find`, `none` where it returns -1
  pub find : H → Name → Option ℕ
  pub count : H → ℕ
  pub sort : H → H
  -- `hostlist_ranged_string(hl, n, buf)`, `none` where it returns -1
  pub ranged_string : H → ℕ → Option Name
  -- `hostlist_iterator_create` may fail; the hosts in the order of `hostlist_next`
  pub iterator_create : H → Bool
  pub hosts : H → List Name

pub record HashOps (T : Type 0) : Type 0 where
  -- `hash_create`
  pub create : Option T
  pub is_empty : T → Bool
  pub find : T → Name → Option ℕ
  -- `hash_insert`, `none` where it returns NULL; then `exists_already` tells whether errno is EEXIST
  pub insert : T → Name → ℕ → Option T
  pub exists_already : T → Name → Bool

-- What hostlist.h documents of the operations, for names of a single host.
pub record HostlistLaws {H : Type 0} (hl : HostlistOps H) (IsHost : Name → Type 0) : Type 0 where
  pub hosts-create : (h : H) → hl.create ≡ some h → hl.hosts h ≡ []
  pub hosts-push :
      (h h' : H) (n : Name) → IsHost n → hl.push h n ≡ some h' → hl.hosts h' ≡ hl.hosts h ++ n ∷ []
  pub find-contains : (h : H) (n : Name) → is_some (hl.find h n) ≡ contains n (hl.hosts h)
  pub count-length : (h : H) → hl.count h ≡ length (hl.hosts h)
  pub sort-contains :
      (h : H) (n : Name) → contains n (hl.hosts (hl.sort h)) ≡ contains n (hl.hosts h)
  pub sort-count : (h : H) → hl.count (hl.sort h) ≡ hl.count h

-- What hash.h documents: a new table has no key, and a key that is absent is added and is found from
-- then on.
pub record HashLaws {T : Type 0} (hash : HashOps T) : Type 0 where
  pub find-create : (t : T) (k : Name) → hash.create ≡ some t → hash.find t k ≡ none
  pub find-insert_self :
      (t t' : T) (k : Name) (v : ℕ) → hash.insert t k v ≡ some t' → hash.find t' k ≡ some v
  pub find-insert_ne :
      (t t' : T) (k j : Name) (v : ℕ)
      → k ≢ j
      → hash.insert t k v ≡ some t'
      → hash.find t' j ≡ hash.find t j
  pub is_empty-insert :
      (t t' : T) (k : Name) (v : ℕ) → hash.insert t k v ≡ some t' → hash.is_empty t' ≡ false

-- The list library (src/libcommon/list.h, from LSD-Tools) on lists of strings: a `List` is its
-- strings, in the order of its iterator.
pub record ListOps : Type 0 where
  -- `list_create`
  pub create : Option (List Name)
  -- `list_append`, `none` where it returns NULL
  pub append : List Name → Name → Option (List Name)
  pub count : List Name → ℕ
  -- whether `list_find_first` finds an item
  pub find_first : (Name → Bool) → List Name → Bool
  -- `list_iterator_create` may fail
  pub iterator_create : List Name → Bool

-- What list.h documents of the operations.
pub record ListLaws (list : ListOps) : Type 0 where
  pub create-empty : (l : List Name) → list.create ≡ some l → l ≡ []
  pub append-last : (l l' : List Name) (n : Name) → list.append l n ≡ some l' → l' ≡ l ++ n ∷ []
  pub count-length : (l : List Name) → list.count l ≡ length l
  pub find_first-contains :
      (l : List Name) (n : Name) → list.find_first (λ x. str_eq x n) l ≡ contains n l
