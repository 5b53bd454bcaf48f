-- ===== src/Server/Alone.antt =====
-- A compilation that is begun and runs to its end before anything else happens: then its turns do
-- what `compile` and `publish` do.
use capnp_ls.Prelude.{
  ℕ, [], ◌∷◌, Bool, true, false, Bool-cases, Option, none, List-cases, Bytes, ◌≡◌, refl, sym, ap,
  ◌∙◌, inl, inr, arith,
}
use capnp_ls.CompilationManager.{
  CompilationManager, check_result, check_at, check_capnp_version_compatible, compile_checked,
  compile,
}
use capnp_ls.LspMessageHandler.Handlers.{Handler, World, publish}
use capnp_ls.Server.Tasks.{
  checking, checked, Job, Reply, begin_check, params_now, at_stage, check_found,
}
use capnp_ls.Server.Stages.{
  result_at, alone, replied, published, with_checked, alone_checked, alone_checking,
}

module _ {Reader : Type 0} (world : World Reader) where
  open world use {os, fs, load, request_of, bundled, mismatch}

  -- What `publish` makes of a job's check and of its maps.
  abbrev finished : Job → Bool × CompilationManager → Handler → Handler
  finished job (compatible, m) h =
      publish world job.path h
        (m, compile_checked os fs load request_of bundled (params_now job h) compatible h.compiled)

  checked_finished :
      (job : Job) (compatible : Bool) (h : Handler)
      → published world job (with_checked world job compatible h)
        ≡ finished job (compatible, h.manager) h
  unfolding publish
  checked_finished job compatible h = refl

  found_finished :
      (job : Job) (compatible : Bool) (h : Handler)
      → h.manager.is_capnp_version_compatible ≡ false
      → published world job (with_checked world job compatible (check_found compatible h))
        ≡ finished job (compatible, record { is_capnp_version_compatible = compatible }) h
  unfolding publish
  found_finished job true h e = refl
  found_finished job false h e = rw e refl

  compile-finished :
      (job : Job) (h : Handler) (t : Bool × CompilationManager)
      → check_capnp_version_compatible os fs load request_of bundled job.compiler_path h.manager ≡ t
      → publish world job.path h
          (compile os fs load request_of bundled (params_now job h) (h.manager, h.compiled))
        ≡ finished job t h
  unfolding compile
  compile-finished job h t e = ap (λ u. finished job u h) e

  check_known :
      (path : Bytes) (m : CompilationManager)
      → m.is_capnp_version_compatible ≡ true
      → check_capnp_version_compatible os fs load request_of bundled path m ≡ (true, m)
  unfolding check_capnp_version_compatible
  check_known path m e = ground arith

  check_no_path :
      (m : CompilationManager)
      → m.is_capnp_version_compatible ≡ false
      → check_capnp_version_compatible os fs load request_of bundled [] m ≡ (false, m)
  unfolding check_capnp_version_compatible check_at
  check_no_path m e = ground arith

  check_runs :
      (job : Job) (c : ℕ) (cs : Bytes) (m : CompilationManager)
      → job.compiler_path ≡ c ∷ cs
      → m.is_capnp_version_compatible ≡ false
      → check_capnp_version_compatible os fs load request_of bundled job.compiler_path m ≡ (
        check_result os fs load request_of bundled (result_at world checking job),
        record {
          is_capnp_version_compatible =
              check_result os fs load request_of bundled (result_at world checking job);
        },
      )
  unfolding check_capnp_version_compatible check_at
  check_runs job c cs m p e = rw p (ground arith)

  -- The job that is begun for a file.
  abbrev pub job_for : Bytes → Handler → Job
  job_for path h = record {
    path = path;
    compiler_path = h.config.compiler_path;
    working_dir = h.config.workspace_path;
    stage = begin_check h.config.compiler_path h.manager;
  }

  begin_check_known :
      (path : Bytes) (m : CompilationManager)
      → m.is_capnp_version_compatible ≡ true
      → begin_check path m ≡ checked true
  unfolding begin_check
  begin_check_known [] m e = ap checked e
  begin_check_known (c ∷ cs) m e = ground arith

  begin_check_no_path :
      (m : CompilationManager)
      → m.is_capnp_version_compatible ≡ false
      → begin_check [] m ≡ checked false
  unfolding begin_check
  begin_check_no_path m e = ap checked e

  begin_check_runs :
      (path : Bytes) (c : ℕ) (cs : Bytes) (m : CompilationManager)
      → path ≡ c ∷ cs
      → m.is_capnp_version_compatible ≡ false
      → begin_check path m ≡ checking
  unfolding begin_check
  begin_check_runs path c cs m p e = rw p (ground arith)

  abbrev pub compiled_by : Job → Handler → Handler
  compiled_by job h =
      publish world job.path h
        (compile os fs load request_of bundled (params_now job h) (h.manager, h.compiled))

  -- Five turns are enough for a job in the stage in which it is begun.
  pub alone_begun :
      (job : Job) (reply : Option Reply) (h : Handler)
      → alone world 5 (h, at_stage (begin_check job.compiler_path h.manager) job reply)
        ≡ (replied world reply (compiled_by job h), none)
  alone_begun job reply h = elim (Bool-cases h.manager.is_capnp_version_compatible) [
    | inl known ↦
        ap (λ s. alone world 5 (h, at_stage s job reply))
          (begin_check_known job.compiler_path h.manager known)
        ∙ alone_checked world 1 true job reply h
        ∙ ap (λ g. (replied world reply g, none))
            (checked_finished job true h
              ∙ sym (
                  compile-finished job h (true, h.manager)
                    (check_known job.compiler_path h.manager known)))
    | inr unknown ↦ elim (List-cases job.compiler_path) [
      | inl no_path ↦
          ap (λ s. alone world 5 (h, at_stage s job reply))
            (ap (λ p. begin_check p h.manager) no_path ∙ begin_check_no_path h.manager unknown)
          ∙ alone_checked world 1 false job reply h
          ∙ ap (λ g. (replied world reply g, none))
              (checked_finished job false h
                ∙ sym (
                    compile-finished job h (false, h.manager)
                      (ap
                          (λ p.
                            check_capnp_version_compatible os fs load request_of bundled p
                              h.manager)
                          no_path
                        ∙ check_no_path h.manager unknown)))
      | inr (c, cs, path) ↦
          ap (λ s. alone world 5 (h, at_stage s job reply))
            (begin_check_runs job.compiler_path c cs h.manager path unknown)
          ∙ alone_checking world 0 job reply h
          ∙ ap (λ g. (replied world reply g, none))
              (found_finished job
                  (check_result os fs load request_of bundled (result_at world checking job)) h
                  unknown
                ∙ sym (compile-finished job h _ (check_runs job c cs h.manager path unknown)))
    ]
  ]
