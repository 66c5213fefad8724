-- ===== src/Tests/Hostsfile.antt =====
-- The hostsfile clusterlist module on a small hosts file.
use whatsup.Prelude.{
  ◌≡◌, refl, Bool, true, false, ◌||◌, ◌++◌, none, some, List, [], ◌∷◌, Name, codes, Exec, Post,
  length, contains, str_eq, arith, strchr, isspace, ap,
}
use whatsup.External.{ListOps, ListLaws}
use whatsup.Hostsfile.Lines.{read_host, host, malformed, skipped}
use whatsup.Hostsfile.{
  HostsFile, opened, hostsfile_clusterlist_setup, hostsfile_clusterlist_is_node_in_cluster,
  hostsfile_clusterlist_get_nodename,
}
use whatsup.Hostsfile.Names.{domain-in_cluster}
use whatsup.Hostsfile.Hosts.{HostNames, setup-HostNames}
use whatsup.Tests.Sample.{SampleState, new_state}

abbrev find : (Name → Bool) → List Name → Bool
find f [] = false
find f (x ∷ xs) = f x || find f xs

strings : ListOps
strings = record {
  create = some [];
  append = λ l n. some (l ++ n ∷ []);
  count = length;
  find_first = find;
  iterator_create = λ l. true;
}

find-contains : (l : List Name) (n : Name) → find (λ x. str_eq x n) l ≡ contains n l
unfolding contains
find-contains [] n = refl
find-contains (x ∷ l) n = ap (λ b. str_eq x n || b) (find-contains l n)

strings_laws : ListLaws strings
unfolding strings
strings_laws = record {
  create-empty = λ l e. cc e;
  append-last = λ l l' n e. cc e;
  count-length = λ l. refl;
  find_first-contains = find-contains;
}

-- a line with a comment, a host with a domain, and an empty line
abbrev small_file : HostsFile
small_file = opened (
    some (codes "# nodes\n")
    ∷ some (codes " a.site  # first\n")
    ∷ some (codes "\n")
    ∷ some (codes "b\n")
    ∷ [])

-- nothing else is done with a NULL pointer than to fail
abbrev fails : (A : Type 0) → Exec SampleState A
fails A s = (none, s)

setup-HostNames_example :
    Post
      (λ _ t. HostNames t.hosts)
      (λ _. Unit {0})
      (hostsfile_clusterlist_setup strings true small_file fails new_state)
setup-HostNames_example = setup-HostNames strings strings_laws true small_file fails new_state

-- the state after the setup
listed_state : SampleState
unfolding new_state
listed_state = record new_state { hosts = some (codes "a" ∷ codes "b" ∷ []) }

domain-in_cluster_example :
    let in_cluster = hostsfile_clusterlist_is_node_in_cluster strings true small_file fails in
    let nodename = hostsfile_clusterlist_get_nodename strings true small_file fails in
    (in_cluster (codes "b") listed_state ≡ (some true, listed_state))
    × (in_cluster (codes "b.site") listed_state ≡ (some true, listed_state))
    × (nodename (codes "b") 65 listed_state ≡ (some (codes "b"), listed_state))
    × (nodename (codes "b.site") 65 listed_state ≡ (some (codes "b"), listed_state))
unfolding listed_state contains str_eq strchr
domain-in_cluster_example =
    domain-in_cluster strings strings_laws true small_file fails (codes "a" ∷ codes "b" ∷ [])
      (codes "b") (codes "site") listed_state refl refl refl (omega arith)

-- The lines of the small file, as the setup reads them.
read_first : read_host (codes "# nodes\n") ≡ skipped
unfolding read_host strchr isspace
read_first = refl

read_second : read_host (codes " a.site  # first\n") ≡ host (codes "a")
unfolding read_host strchr isspace
read_second = refl

read_blank : read_host (codes "a b\n") ≡ malformed
unfolding read_host strchr isspace
read_blank = refl

small_file_setup :
    hostsfile_clusterlist_setup strings true small_file fails new_state ≡ (some tt, listed_state)
unfolding hostsfile_clusterlist_setup read_host strchr isspace strings listed_state new_state
small_file_setup = refl
