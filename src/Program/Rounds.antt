-- ===== src/Program/Rounds.antt =====
-- The rounds of `_log_mode` of src/whatsup/whatsup.c, and what the log tells after them.
use whatsup.Prelude.{
  ℕ, zero, suc, ◌≡◌, refl, ap, ◌∙◌, subst, Option, none, some, Name, ◌>>◌, Post, Post-then,
}
use whatsup.External.{HostlistLaws}
use whatsup.Devel.{UpOrDown}
use whatsup.Program.State.{Statics, ProgramEnv}
use whatsup.Program.Log.{Snapshot, write_log, take_snapshot, rest_until_next, log_rounds}
use whatsup.Program.Quiet.{OwnPart, take_snapshot-Keeps}
use whatsup.Program.Replay.{replay, status, Once, Told, both_changes, write_log-Tells}

module _ {H L W : Type 0} where
  log_part : OwnPart {H = H} {L = L} {W = W} (λ s. s.log)
  log_part = record { library = λ s l. refl; stderr = λ s text. refl }

module _ {H L W : Type 0} (env : ProgramEnv H L W) where
  -- What the rounds return: the last lists, which have the node once, as the log tells.
  pub ToldBy : Name → UpOrDown → Option (Snapshot H) → Statics H L W → Type 0
  ToldBy node first none s = ⊥
  ToldBy node first (some last) s =
      Once env node last × Told env node first (status env node last) s

  taken :
      (node : Name) (first u : UpOrDown) (s : Statics H L W)
      (r : Option (Snapshot H) × Statics H L W)
      → ((now : Snapshot H) → r.0 ≡ some now → Once env node now)
      → r.1.log ≡ s.log
      → Told env node first u s
      → Post (λ now t. Once env node now × Told env node first u t) (λ _. Unit {0}) r
  taken node first u s (none, t) o l h = tt
  taken node first u s (some now, t) o l h = (o now refl, ap (λ es. replay node es first) l ∙ h)

  module _ {IsHost : Name → Type 0} (laws : HostlistLaws env.hostlist IsHost) where
    -- With a hostlist library as documented: if every load has the node in exactly one of its two
    -- lists, then the log, which told the state of the node at the load before the first round,
    -- tells its state at the last load after any number of rounds that do not end the process.
    pub log_rounds-ToldBy :
        (rounds : ℕ) (node : Name) (first : UpOrDown) (before : Snapshot H) (s : Statics H L W)
        → ((t : Statics H L W) (now : Snapshot H)
            → (take_snapshot env t).0 ≡ some now
            → Once env node now)
        → Once env node before
        → Told env node first (status env node before) s
        → Post (ToldBy node first) (λ _. Unit {0}) (log_rounds env rounds (some before) s)
    unfolding log_rounds ToldBy rest_until_next
    log_rounds-ToldBy zero node first before s once b h = (b, h)
    log_rounds-ToldBy (suc rounds) node first before s once b h =
        Post-then (λ now t. Once env node now × Told env node first (status env node before) t)
          (ToldBy node first) (take_snapshot env s) _
          (taken node first (status env node before) s (take_snapshot env s) (once s)
            ((take_snapshot-Keeps (λ t. t.log) log_part env).at s) h)
          (λ now t k.
            Post-then (λ _. Told env node first (status env node now)) (ToldBy node first)
              ((write_log env (some before) now >> rest_until_next env) t)
              (λ _. log_rounds env rounds (some now))
              (Post-then (λ _. Told env node first (status env node now))
                (λ _. Told env node first (status env node now)) (write_log env (some before) now t)
                (λ _. rest_until_next env)
                (subst
                  (λ u.
                    Post (λ _. Told env node first u) (λ _. Unit {0})
                      (write_log env (some before) now t))
                  (both_changes env laws node before now b k.0)
                  ((write_log-Tells env laws node first before now).at t k.1))
                (λ _ u l. l))
              (λ _ u l. log_rounds-ToldBy rounds node first now u once k.0 l))
