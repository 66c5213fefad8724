-- ===== src/Module/DefaultFrame.antt =====
-- The default modules and the error number leave the frame alone.
use whatsup.Prelude.{ℕ, ℤ, ◌+◌, inl, inr, arith, ltb, length, Bool-cases, Name}
use whatsup.External.{HostlistOps}
use whatsup.Handle.State.{State, put_errnum}
use whatsup.Handle.Checks.{nodeupdown_set_errnum}
use whatsup.Module.Counts.{Frame, Frame-refl, Framed}
use whatsup.Module.Laws.{ClusterlistFramed, ConfigFramed}
use whatsup.Module.Default.{default_clusterlist_module_info, default_config_module_info}

module _ {H T : Type 0} where
  pub Frame-set_errnum : (n : ℤ) (s : State H T) → Frame s (nodeupdown_set_errnum n s)
  unfolding nodeupdown_set_errnum
  Frame-set_errnum n s = ground arith

  pub Frame-put_errnum : (n : ℕ) (s : State H T) → Frame s (put_errnum n s)
  Frame-put_errnum n s = ground arith

  default_get_nodename :
      (hl : HostlistOps H) (node : Name) (buflen : ℕ)
      → Framed ((default_clusterlist_module_info {T = T} hl).get_nodename node buflen)
  unfolding default_clusterlist_module_info
  default_get_nodename hl node buflen = record {
    at = λ s. elim (Bool-cases (ltb buflen (length node + 1))) [
      | inl e ↦ rw e (Frame-set_errnum _ s)
      | inr e ↦ rw e (Frame-refl s)
    ];
  }

  pub default-ClusterlistFramed :
      (hl : HostlistOps H) → ClusterlistFramed {T = T} (default_clusterlist_module_info hl)
  unfolding default_clusterlist_module_info
  default-ClusterlistFramed hl = record {
    setup = record { at = Frame-refl };
    cleanup = record { at = Frame-refl };
    get_numnodes = record { at = Frame-refl };
    is_node_in_cluster = λ node. record { at = Frame-refl };
    get_nodename = default_get_nodename hl;
    compare_to_clusterlist = λ devel d. record { at = Frame-refl };
  }

  pub default-ConfigFramed : ConfigFramed {H = H} {T = T} default_config_module_info
  unfolding default_config_module_info
  default-ConfigFramed = record {
    setup = record { at = Frame-refl };
    cleanup = record { at = Frame-refl };
    load_config = λ conf. record { at = Frame-refl };
  }
