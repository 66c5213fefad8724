-- ===== src/Module/Counts.antt =====
-- What the library keeps count of while it loads: the open modules and the references to libltdl.
use whatsup.Prelude.{
  ℕ, ◌+◌, ◌≡◌, ◌∙◌, Bool, true, false, Option, none, some, arith, is_some, Exec, continue, ◌>>=◌,
  if◌then◌else◌,
}
use whatsup.Handle.State.{State, nodeupdown_magic_num}

abbrev pub bit : Bool → ℕ
bit false = 0
bit true = 1

-- Besides `o` modules and `r` references of the rest of the process, the open modules are those whose
-- handles are kept, and there is a reference to libltdl exactly where the flag says so.
pub record Counted {H T : Type 0} (o r : ℕ) (s : State H T) : Type 0 where
  pub magic : s.handle.magic ≡ nodeupdown_magic_num
  pub dl_open :
      s.modules.dl_open
      ≡ o
        + bit (is_some s.modules.backend_module_dl_handle)
        + bit (is_some s.modules.clusterlist_module_dl_handle)
        + bit (is_some s.modules.config_module_dl_handle)
  pub dl_refs : s.modules.dl_refs ≡ r + bit s.handle.ltdl_initialized

-- What a module leaves alone: all but the contents of the lists and the table, the error number and
-- the module's own statics.
pub record Frame {H T : Type 0} (s t : State H T) : Type 0 where
  pub magic : t.handle.magic ≡ s.handle.magic
  pub load_state : t.handle.load_state ≡ s.handle.load_state
  pub ltdl_initialized : t.handle.ltdl_initialized ≡ s.handle.ltdl_initialized
  pub modules : t.modules ≡ s.modules
  pub up_nodes : is_some t.handle.up_nodes ≡ is_some s.handle.up_nodes
  pub down_nodes : is_some t.handle.down_nodes ≡ is_some s.handle.down_nodes
  pub last_up_times : is_some t.handle.last_up_times ≡ is_some s.handle.last_up_times
  pub numnodes : t.handle.numnodes ≡ s.handle.numnodes

module _ {H T : Type 0} where
  pub Frame-refl : (s : State H T) → Frame s s
  Frame-refl s = ground arith

  pub Frame-trans : {s t u : State H T} → Frame s t → Frame t u → Frame s u
  Frame-trans f g = record {
    magic = g.magic ∙ f.magic;
    load_state = g.load_state ∙ f.load_state;
    ltdl_initialized = g.ltdl_initialized ∙ f.ltdl_initialized;
    modules = g.modules ∙ f.modules;
    up_nodes = g.up_nodes ∙ f.up_nodes;
    down_nodes = g.down_nodes ∙ f.down_nodes;
    last_up_times = g.last_up_times ∙ f.last_up_times;
    numnodes = g.numnodes ∙ f.numnodes;
  }

  pub Frame-Counted : (o r : ℕ) {s t : State H T} → Frame s t → Counted o r s → Counted o r t
  Frame-Counted o r f c = ground arith

-- An action that leaves the frame alone, whether it returns or fails.
pub record Framed {H T A : Type 0} (m : Exec (State H T) A) : Type 0 where
  pub at : (s : State H T) → Frame s (m s).1

module _ {H T A B : Type 0} where
  Frame-continue :
      (s t : State H T) (o : Option A) (f : A → Exec (State H T) B)
      → Frame s t
      → ((a : A) → Framed (f a))
      → Frame s (continue o f t).1
  Frame-continue s t none f h k = h
  Frame-continue s t (some a) f h k = Frame-trans h ((k a).at t)

  pub Framed-bind :
      (m : Exec (State H T) A) (f : A → Exec (State H T) B)
      → Framed m
      → ((a : A) → Framed (f a))
      → Framed (m >>= f)
  Framed-bind m f h k = record { at = λ s. Frame-continue s (m s).1 (m s).0 f (h.at s) k }

pub Frame-if :
    {H T A : Type 0} (b : Bool) (s : State H T) (x y : Option A × State H T)
    → Frame s x.1
    → Frame s y.1
    → Frame s (if b then x else y).1
Frame-if true s x y h k = h
Frame-if false s x y h k = k

pub Framed-if :
    {H T A : Type 0} (b : State H T → Bool) (m n : Exec (State H T) A)
    → Framed m
    → Framed n
    → Framed (λ s. if b s then m s else n s)
Framed-if b m n h k = record { at = λ s. Frame-if (b s) s (m s) (n s) (h.at s) (k.at s) }
