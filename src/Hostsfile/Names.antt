-- ===== src/Hostsfile/Names.antt =====
-- Host names with and without a domain.
use whatsup.Prelude.{
  ℕ, zero, suc, ◌+◌, ◌<◌, ◌≡◌, refl, ap, ◌∙◌, ◌-◌, Bool, true, false, none, some, List, [], ◌∷◌,
  ◌++◌, Name, strchr, contains, length, take, ◌==◌, is_some, Exec, arith,
}
use whatsup.External.{ListOps, ListLaws}
use whatsup.Handle.State.{State}
use whatsup.Module.Default.{copy_nodename}
use whatsup.Devel.{maxnodenamelen}
use whatsup.Hostsfile.Lines.{before_dot}
use whatsup.Hostsfile.{
  HostsFile, shorten, find_host, find_short, copy_short, hostsfile_clusterlist_is_node_in_cluster,
  hostsfile_clusterlist_get_nodename,
}

before_dot-append :
    (name domain : Name) → strchr b'.' name ≡ none → before_dot (name ++ b'.' ∷ domain) ≡ name
unfolding before_dot strchr
before_dot-append [] domain h = refl
before_dot-append (c ∷ cs) domain h = ground (arith, h, before_dot-append cs domain)

strchr-append :
    (name domain : Name)
    → strchr b'.' name ≡ none
    → is_some (strchr b'.' (name ++ b'.' ∷ domain)) ≡ true
unfolding strchr
strchr-append [] domain h = refl
strchr-append (c ∷ cs) domain h = ground (arith, h, strchr-append cs domain)

take-append :
    (n : ℕ) (name domain : Name)
    → length name < n
    → take n (name ++ b'.' ∷ domain) ≡ name ++ b'.' ∷ take (n - suc (length name)) domain
take-append zero name domain h = absurd (omega (arith, h))
take-append (suc n) [] domain h = ap (λ k. b'.' ∷ take k domain) (omega arith)
take-append (suc n) (c ∷ cs) domain h =
    ap (λ l. c ∷ l) (take-append n cs domain (omega (arith, h)))
    ∙ ap (λ k. c ∷ (cs ++ b'.' ∷ take k domain)) (omega arith)

shorten-domain :
    (name domain : Name)
    → strchr b'.' name ≡ none
    → length name < maxnodenamelen
    → shorten (name ++ b'.' ∷ domain) ≡ some name
unfolding shorten
shorten-domain name domain h len =
    let rest = take (maxnodenamelen - suc (length name)) domain in
    rw (strchr-append name domain h) (
      rw (take-append maxnodenamelen name domain len)
        (rw (strchr-append name rest h) (rw (before_dot-append name rest h) refl)))

shorten-plain : (name : Name) → strchr b'.' name ≡ none → shorten name ≡ some name
unfolding shorten
shorten-plain name h = rw h refl

copy_nodename-fits :
    {H T : Type 0} (node : Name) (buflen : ℕ) (s : State H T)
    → length node < buflen
    → copy_nodename node buflen s ≡ (some node, s)
unfolding copy_nodename
copy_nodename-fits node buflen s h = ground (arith, h)

contains-length : (n : Name) (l : List Name) → contains n l ≡ true → (length l == 0) ≡ false
unfolding contains
contains-length n [] h = cc h
contains-length n (m ∷ l) h = ground arith

module _ {H T : Type 0} (list : ListOps) (laws : ListLaws list) (malloc : Bool) (file : HostsFile)
    (undefined : (A : Type 0) → Exec (State H T) A) where
  find_host-contains :
      (l : List Name) (host node : Name) (s : State H T)
      → contains host l ≡ true
      → shorten node ≡ some host
      → find_host list malloc file undefined (some l) node s ≡ (some true, s)
  unfolding find_host find_short
  find_host-contains l host node s m short =
      rw (ap (λ n. n == 0) (laws.count-length l) ∙ contains-length host l m)
        (rw short (rw (laws.find_first-contains l host) (rw m refl)))

  -- With a list library as documented: a host of the file, of fewer than 64 characters and without a dot, is in the cluster under its
  -- own name and under that name with any domain after it, and the name of the node is the host's in
  -- both cases.
  pub domain-in_cluster :
      (l : List Name) (name domain : Name) (s : State H T)
      → s.hosts ≡ some l
      → contains name l ≡ true
      → strchr b'.' name ≡ none
      → length name < maxnodenamelen
      → let full = name ++ b'.' ∷ domain in
        let in_cluster = hostsfile_clusterlist_is_node_in_cluster list malloc file undefined in
        let nodename = hostsfile_clusterlist_get_nodename list malloc file undefined in
        (in_cluster name s ≡ (some true, s))
        × (in_cluster full s ≡ (some true, s))
        × (nodename name (maxnodenamelen + 1) s ≡ (some name, s))
        × (nodename full (maxnodenamelen + 1) s ≡ (some name, s))
  unfolding hostsfile_clusterlist_is_node_in_cluster hostsfile_clusterlist_get_nodename copy_short
  domain-in_cluster l name domain s e m h len =
      let fits = copy_nodename-fits name (maxnodenamelen + 1) s (omega (arith, len)) in
      (
        ap (λ o. find_host list malloc file undefined o name s) e
            ∙ find_host-contains l name name s m (shorten-plain name h),
        ap (λ o. find_host list malloc file undefined o (name ++ b'.' ∷ domain) s) e
            ∙ find_host-contains l name (name ++ b'.' ∷ domain) s m
                (shorten-domain name domain h len),
        ap (λ o. copy_short list malloc file undefined (maxnodenamelen + 1) o s)
              (shorten-plain name h)
            ∙ fits,
        ap (λ o. copy_short list malloc file undefined (maxnodenamelen + 1) o s)
              (shorten-domain name domain h len)
            ∙ fits,
      )
