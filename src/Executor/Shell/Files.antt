-- ===== src/Executor/Shell/Files.antt =====
-- executor/shell.go: the directories of a command and its caches.
use flow_agent_x.Prelude.{
  ℕ, Bool, true, false, Option, none, some, List, [], ◌∷◌, if◌then◌else◌, Text, codes, is_empty,
}
use flow_agent_x.Prelude.Dict.{insert}
use flow_agent_x.Prelude.Exec.{
  Err, Result, ok, err, Outcome, ret, Exec, pure, must, modify, panic_if_err, recover, ◌>>=◌, ◌>>◌,
}
use flow_agent_x.Domain.Command.{Cache}
use flow_agent_x.Domain.Variables.{resolve}
use flow_agent_x.Util.Template.{parse_variables_from}
use flow_agent_x.Executor.Shell.{
  make_dir, remove, remove_all, write_tool, rename, copy_dir, copy_file, make_temp, Log,
  cache_applied, cache_not_applied, FileKind, missing, directory, file, Machine, Shell, act, note,
  write_single_log,
}

module _ (machine : Machine) where
  abbrev pub exists : Text → Shell → Bool
  exists path s = elim (machine.file_kind s.acts path) [ missing ↦ false | _ ↦ true ]

  -- The cache's file is removed from the directory of downloads whether or not the move succeeds.
  unfoldable pub apply_cache : Text → Text → Text → Shell → Shell
  apply_cache name old_path new_path s =
      let s1 = if exists new_path s then note (remove new_path) s else s in
      let moved = machine.rename_to s1.acts old_path new_path in
      let s2 = note (rename old_path new_path) s1 in
      let line : Log = elim moved [
        | none ↦ cache_applied name
        | some e ↦ cache_not_applied name e
      ] in
      note (remove_all old_path) (write_single_log line s2)

  unfoldable pub apply_caches : List Text → Shell → Shell
  unfolding apply_cache
  apply_caches [] s = s
  apply_caches (name ∷ names) s =
      apply_caches names
        (apply_cache name (machine.join s.cache_input_dir name) (machine.join s.job_dir name) s)

  unfoldable pub copy_cache : Exec Shell (Unit {0})
  unfolding apply_caches
  copy_cache s =
      if is_empty s.cache_input_dir
      then (ret tt, s)
      else (must (machine.read_dir s.acts s.cache_input_dir) >>= λ names.
            modify (apply_caches names))
          s

  unfoldable pub write_tools : List Text → Shell → Shell
  write_tools [] s = s
  write_tools (name ∷ names) s =
      let path = machine.join s.bin_dir name in
      write_tools names (if exists path s then s else note (write_tool path) s)

  -- An error of TempDir is dropped: the workspace stays empty then.
  unfoldable pub init_workspace : Shell → Shell
  init_workspace s =
      if is_empty s.workspace
      then elim (machine.temp_dir s.acts) [
        | err e ↦ record s { acts = make_temp ∷ s.acts }
        | ok dir ↦ record s { acts = make_temp ∷ s.acts; workspace = dir }
      ]
      else s

  abbrev pub lift {ℓ} : {A : Type ℓ} → Outcome A → Exec Shell A
  lift o s = (o, s)

  abbrev pub mkdir_all : Text → Exec Shell (Unit {0})
  mkdir_all dir = act (make_dir dir) (λ h. machine.mkdir h dir) >>= panic_if_err

  unfoldable pub init_bin : Exec Shell (Unit {0})
  unfolding write_tools
  init_bin = do
    modify (λ s. record s { bin_dir = machine.join s.workspace (codes "bin") })
    s ← (λ s. (ret s, s))
    mkdir_all s.bin_dir
    modify (write_tools machine.tools)

  -- `fuel` is for the rounds of the expansions, `first` and `second` are the orders of the maps.
  unfoldable pub init_job : ℕ → List Text → List Text → Exec Shell (Unit {0})
  init_job fuel first second = do
    s ← (λ s. (ret s, s))
    flow ← lift (parse_variables_from fuel s.in_cmd.flow_id machine.environment)
    modify (λ s. record s {
      job_dir = machine.join s.workspace flow;
      vars = insert (codes "FLOWCI_AGENT_JOB_DIR") (machine.join s.workspace flow) s.vars;
    })
    mkdir_all (machine.join s.workspace flow)
    t ← (λ t. (ret t, t))
    vars ← lift (resolve fuel machine.environment first second t.vars)
    modify (λ t. record t { vars = vars })

  unfoldable pub init_body : ℕ → List Text → List Text → Exec Shell (Option Err)
  unfolding init_workspace init_bin init_job copy_cache
  init_body fuel first second =
      modify
        (λ s. init_workspace (record s { result = record s.result { start_at = machine.now } }))
      >> init_bin
      >> init_job fuel first second
      >> copy_cache
      >> pure none

  unfoldable pub init : ℕ → List Text → List Text → Exec Shell (Option Err)
  unfolding init_body
  init fuel first second = recover (λ e. pure (some e)) (init_body fuel first second)

  unfoldable pub copy_kind : FileKind → Text → Text → Exec Shell (Unit {0})
  copy_kind missing from to = pure tt
  copy_kind directory from to =
      act (copy_dir from to) (λ h. machine.copy_to h from to) >>= panic_if_err
  copy_kind file from to = act (copy_file from to) (λ h. machine.copy_to h from to) >>= panic_if_err

  -- The body of the loop of writeCache. The first error of a copy ends the loop.
  unfoldable pub copy_back : Text → Text → Exec Shell (Unit {0})
  unfolding copy_kind
  copy_back dir path s =
      let from = machine.join s.job_dir (machine.clean path) in
      copy_kind (machine.file_kind s.acts from) from (machine.join dir (machine.clean path)) s

  unfoldable pub copy_all_back : Text → List Text → Exec Shell (Unit {0})
  unfolding copy_back
  copy_all_back dir [] = pure tt
  copy_all_back dir (path ∷ paths) =
      let rest = copy_all_back dir paths in copy_back dir path >> rest

  unfoldable pub write_cache_to : Result Text → List Text → Exec Shell (Unit {0})
  unfolding copy_all_back
  write_cache_to (err e) paths s = (ret tt, note make_temp s)
  write_cache_to (ok dir) paths s =
      recover (λ e. pure tt) (copy_all_back dir paths)
        (record s { acts = make_temp ∷ s.acts; cache_output_dir = dir })

  abbrev pub write_cache_of : Option Cache → Exec Shell (Unit {0})
  write_cache_of none s = (ret tt, s)
  write_cache_of (some cache) s = write_cache_to (machine.temp_dir s.acts) cache.paths s

  unfoldable pub write_cache : Exec Shell (Unit {0})
  unfolding write_cache_to
  write_cache s = write_cache_of s.in_cmd.cache s
