-- ===== src/Config/Workers.antt =====
-- `config_tozk` of config.cpp and the servers of the cluster.
use jubatus.Base.{◌≡◌, ◌≢◌, refl, ◌∙◌, Bool, true, false, List, [], ◌∷◌, none, some, arith}
use jubatus.Base.Comp.{runtime_error, ok, throw}
use jubatus.Base.Int.{ℤ}
use jubatus.Base.Text.{Text, text_eq, text_eq_iff}
use jubatus.LockService.{LockService}
use jubatus.Membership.{build_config_path, build_config_lock_path, get_all_nodes}
use jubatus.Mutex.{ZkMutex, try_lock}
use jubatus.Config.{
  is_no_workers, no_nodes, config_tozk, write_config, locked, release, config_lock,
}

module _ {S : Type 0} (ls : LockService S) (exists : Text → S → Bool × S)
    (set : Text → Text → S → Bool × S) (starts_with : Text → Text → Bool) (junk : Text)
    (parses : Text → Bool) (type name : Text) where
  tozk_locked :
      (config : Text) (s s₁ s₂ : S) (m : ZkMutex)
      → config ≢ []
      → parses config ≡ true
      → exists (build_config_lock_path type name) s ≡ (true, s₁)
      → try_lock ls starts_with junk
          (config_lock ls exists set starts_with junk parses type name)
          s₁
        ≡ ((true, m), s₂)
      → config_tozk ls exists set starts_with junk parses type name config s
        ≡ release ls exists set starts_with junk parses type name m
            (write_config ls exists set starts_with junk parses type name config s₂)
  unfolding config_tozk locked
  tozk_locked config s s₁ s₂ m ne p e l =
      let some_text : text_eq config [] ≡ false = ground (arith, text_eq_iff config []) in
      rw (some_text, p, e, l) refl

  module _ (config : Text) (s s₁ s₂ s₃ : S) (m : ZkMutex) where
    -- With a configuration that is JSON and the lock taken at the first attempt: when the listing of the servers
    -- has a server, `config_tozk` throws, having written nothing, and gives up the lock. When the listing
    -- fails, it goes on as when there are no servers: it writes, and if that succeeds it returns.
    pub config_tozk_lem :
        config ≢ []
        → parses config ≡ true
        → exists (build_config_lock_path type name) s ≡ (true, s₁)
        → try_lock ls starts_with junk
            (config_lock ls exists set starts_with junk parses type name)
            s₁
          ≡ ((true, m), s₂)
        → let let_go = release ls exists set starts_with junk parses type name m in
          let tozk = config_tozk ls exists set starts_with junk parses type name config s in
          let made = ls.create (build_config_path type name) [] false s₃ in
          let written = set (build_config_path type name) config made.1 in
          ((n : Text × ℤ) (ns : List (Text × ℤ))
            → get_all_nodes ls type name s₂ ≡ (some (n ∷ ns), s₃)
            → tozk ≡ let_go (throw runtime_error, s₃))
          × (get_all_nodes ls type name s₂ ≡ (none, s₃)
              → made.0 ≡ true
              → written.0 ≡ true
              → tozk ≡ let_go (ok tt, written.1))
    unfolding write_config is_no_workers no_nodes
    config_tozk_lem ne p e l = (
      λ n ns g. tozk_locked config s s₁ s₂ m ne p e l ∙ rw g refl,
      λ g c w. tozk_locked config s s₁ s₂ m ne p e l ∙ rw (g, c, w) refl,
    )
