-- ===== src/Query/Copy.antt =====
-- What `_get_nodes_list` leaves in the caller's array.
use whatsup.Prelude.{
  ℕ, zero, suc, ◌+◌, ◌≤◌, ◌<◌, ◌≡◌, refl, ap, inl, inr, Bool, true, false, not, Option, none, some,
  List, [], ◌∷◌, ◌++◌, map, Name, ltb, leb, length, get_elem?, set, drop, is_some, arith, ◌⊎◌,
  if-intro, if-cases, length-append, All, ◌∙◌,
}
use mathlib.Core.List.{append_assoc}
use whatsup.Handle.Err
use whatsup.Devel.{maxnodenamelen}
use whatsup.Query.Nodes.{Copied, all, stopped, copy_nodes}

abbrev Result : Type 0
Result = Copied × List (Option Name)

-- The slot `i` of the array has a buffer.
abbrev pub has_buffer : List (Option Name) → ℕ → Bool
has_buffer array i = is_some (elim (get_elem? array i) [ none ↦ none | some slot ↦ slot ])

-- Every name fits a buffer.
abbrev pub Fits : List Name → Type 0
Fits = All (λ n. length n ≤ maxnodenamelen)

length-set : {A : Type 0} (xs : List A) (i : ℕ) (v : A) → length (set xs i v) ≡ length xs
length-set [] i v = refl
length-set (x ∷ xs) zero v = refl
length-set (x ∷ xs) (suc i) v = ap suc (length-set xs i v)

get_elem?-set_ne :
    {A : Type 0} (xs : List A) (i j : ℕ) (v : A) → i < j → get_elem? (set xs i v) j ≡ get_elem? xs j
get_elem?-set_ne [] i j v h = refl
get_elem?-set_ne (x ∷ xs) zero zero v h = absurd (omega (arith, h))
get_elem?-set_ne (x ∷ xs) zero (suc j) v h = refl
get_elem?-set_ne (x ∷ xs) (suc i) zero v h = absurd (omega (arith, h))
get_elem?-set_ne (x ∷ xs) (suc i) (suc j) v h = get_elem?-set_ne xs i j v (omega arith)

has_buffer-set :
    (array : List (Option Name)) (count i : ℕ) (n : Name)
    → suc count ≤ i
    → has_buffer (set array count (some n)) i ≡ has_buffer array i
has_buffer-set array count i n h = rw (get_elem?-set_ne array count i (some n) h) refl

leb-false : (len count i : ℕ) → leb len count ≡ false → len ≤ i → count < i
leb-false len count i e h = ground arith

-- The array with `hosts` written from the slot `count` on.
unfoldable pub written : List Name → ℕ → List (Option Name) → List (Option Name)
written [] count array = array
written (n ∷ ns) count array = written ns (suc count) (set array count (some n))

set-append :
    {A : Type 0} (pre rest : List A) (x v : A)
    → set (pre ++ x ∷ rest) (length pre) v ≡ pre ++ v ∷ rest
set-append [] rest x v = refl
set-append (p ∷ pre) rest x v = ap (λ l. p ∷ l) (set-append pre rest x v)

-- The next slot goes to the part that is written.
written-one :
    (ns : List Name) (pre array : List (Option Name)) (n : Name)
    → written ns (length (pre ++ some n ∷ [])) ((pre ++ some n ∷ []) ++ array)
      ≡ (pre ++ some n ∷ []) ++ (map some ns ++ drop (length ns) array)
    → written ns (suc (length pre)) (pre ++ some n ∷ array)
      ≡ pre ++ some n ∷ (map some ns ++ drop (length ns) array)
written-one ns pre array n h =
    let eq : length (pre ++ some n ∷ []) ≡ suc (length pre) =
      omega (arith, length-append pre (some n ∷ [])) in
    cc (
      h,
      eq,
      append_assoc pre (some n ∷ []) array,
      append_assoc pre (some n ∷ []) (map some ns ++ drop (length ns) array),
    )

written-at :
    (hosts : List Name) (pre array : List (Option Name))
    → length hosts ≤ length array
    → written hosts (length pre) (pre ++ array)
      ≡ pre ++ (map some hosts ++ drop (length hosts) array)
unfolding written
written-at [] pre array h = refl
written-at (n ∷ ns) pre [] h = absurd (omega (arith, h))
written-at (n ∷ ns) pre (slot ∷ array) h =
    rw (set-append pre array slot (some n))
      (written-one ns pre array n (written-at ns (pre ++ some n ∷ []) array (omega (arith, h))))

-- The loop of `_get_nodes_list` on an array of `len` slots gives the number of the hosts, and has
-- written the hosts in their order, whenever the array is long enough, all of the slots that are
-- needed have a buffer, and every name fits one.
pub copy_nodes-all :
    (hosts : List Name) (count len : ℕ) (array : List (Option Name))
    → count + length hosts ≤ len
    → Fits hosts
    → ((i : ℕ) → count ≤ i → i < count + length hosts → has_buffer array i ≡ true)
    → copy_nodes hosts count len array ≡ (all (count + length hosts), written hosts count array)
unfolding copy_nodes written
copy_nodes-all [] count len array h fits buffers = ap (λ n. (all n, array)) (omega arith)
copy_nodes-all (n ∷ ns) count len array h fits buffers =
    let here = buffers count (omega arith) (omega arith) in
    let ih =
      copy_nodes-all ns (suc count) len (set array count (some n)) (omega arith) fits.1
        (λ i l u. has_buffer-set array count i n l ∙ buffers i (omega arith) (omega arith)) in
    let eq : count + suc (length ns) ≡ suc count + length ns = omega arith in
    ground (arith, ih, here, fits.0, eq)

-- Whatever happens, a slot at or past `len` stays as it is.
pub copy_nodes-bounded :
    (hosts : List Name) (count len : ℕ) (array : List (Option Name)) (i : ℕ)
    → len ≤ i
    → get_elem? (copy_nodes hosts count len array).1 i ≡ get_elem? array i
unfolding copy_nodes
copy_nodes-bounded [] count len array i h = refl
copy_nodes-bounded (n ∷ ns) count len array i h =
    let ih = copy_nodes-bounded ns (suc count) len (set array count (some n)) i h in
    let P : Result → Type 0 = λ x. get_elem? x.1 i ≡ get_elem? array i in
    if-cases P (leb len count) _ _ (λ _. refl)
      λ e. if-intro P (not (has_buffer array count)) _ _ refl (
        if-intro P (ltb maxnodenamelen (length n)) _ _ refl
          (ih ∙ get_elem?-set_ne array count i (some n) (leb-false len count i e h)))

-- A copy that ends well has copied every host, and `len` slots were enough; one that does not has
-- stopped at a name or an array that is too short, or at a slot without a buffer.
pub IsOutcome : ℕ → ℕ → Copied → Type 0
IsOutcome n len (all m) = (m ≡ n) × (m ≤ len)
IsOutcome n len (stopped errnum) = (errnum ≡ Err.overflow) ⊎ (errnum ≡ Err.null_ptr)

pub copy_nodes-IsOutcome :
    (hosts : List Name) (count len : ℕ) (array : List (Option Name))
    → count ≤ len
    → IsOutcome (count + length hosts) len (copy_nodes hosts count len array).0
unfolding copy_nodes IsOutcome
copy_nodes-IsOutcome [] count len array h = (omega arith, h)
copy_nodes-IsOutcome (n ∷ ns) count len array h =
    let eq : count + suc (length ns) ≡ suc count + length ns = omega arith in
    let P : Result → Type 0 = λ x. IsOutcome (count + suc (length ns)) len x.0 in
    if-cases P (leb len count) _ _ (λ _. inl refl)
      λ e.
        let ih =
          copy_nodes-IsOutcome ns (suc count) len (set array count (some n))
            (leb-false len count len e (omega arith)) in
        if-intro P (not (has_buffer array count)) _ _ (inr refl)
          (if-intro P (ltb maxnodenamelen (length n)) _ _ (inl refl) (rw eq ih))

-- The array that the loop writes from its start on begins with the hosts, and is as before after them.
pub written-start :
    (hosts : List Name) (array : List (Option Name))
    → length hosts ≤ length array
    → written hosts 0 array ≡ map some hosts ++ drop (length hosts) array
written-start hosts array h = written-at hosts [] array h
