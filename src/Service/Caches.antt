-- ===== src/Service/Caches.antt =====
-- service/cache_manager.go: the caches of a command, between the server and the executor.
use flow_agent_x.Prelude.{
  ℕ, ◌+◌, ◌%◌, ◌^◌, Option, none, some, List, [], ◌∷◌, ◌++◌, length, Text, codes,
}
use flow_agent_x.Prelude.Exec.{
  Err, nil_dereference, Result, ok, err, Outcome, ret, Exec, pure, throw, must, recover, ◌>>=◌,
  ◌>>◌,
}
use flow_agent_x.Util.Template.{parse_variables_from}
use flow_agent_x.Api.Requests.{Web, Login, Session, JobCache}
use flow_agent_x.Api.Caches.{Disk, cache_get, cache_download, cache_put}
use flow_agent_x.Domain.Command.{Cache}
use flow_agent_x.Domain.Variables.{Variables, get}

-- SendShellLog, with the text before its encoding
abbrev pub send_log : Text → Exec Session (Unit {0})
send_log text s = (ret tt, record s { logs = text ∷ s.logs })

abbrev pub lift {ℓ} : {A : Type ℓ} → Outcome A → Exec Session A
lift o s = (o, s)

-- progressWriter.Write: the total is a uint64.
unfoldable pub write_progress : Text → ℕ → ℕ
write_progress bytes total = (total + length bytes) % 2 ^ 64

module _ (fuel : ℕ) (inputs : Variables) where
  unfoldable pub resolve_paths : List Text → Exec Session (List Text)
  resolve_paths [] = pure []
  resolve_paths (path ∷ paths) =
      let rest = resolve_paths paths in
      lift (parse_variables_from fuel path (get inputs)) >>= λ p. rest >>= λ ps. pure (p ∷ ps)

  unfoldable pub resolve_cache : Cache → Exec Session Cache
  unfolding resolve_paths
  resolve_cache cache = lift (parse_variables_from fuel cache.key (get inputs)) >>= λ key.
      resolve_paths cache.paths >>= λ paths. pure (record { key = key; paths = paths })

module _ (disk : Disk) (web : Web) (login : Login) where
  -- The files of a cache, one after the other: an error of a download is only logged by it.
  unfoldable pub download_files : Text → Text → List Text → Exec Session (Unit {0})
  download_files id dir [] = pure tt
  download_files id dir (file ∷ files) =
      let rest = download_files id dir files in
      send_log (codes "---> cache " ++ file) >> cache_download disk web login id dir file >> rest

  -- Behind the answer of the server, whose data may be nil.
  abbrev pub download_cache : Option JobCache → Exec Session Text
  download_cache none = throw nil_dereference
  download_cache (some cache) =
      send_log (codes "Start to download cache " ++ cache.key)
      >> (λ (s : Session). must (disk.temp_dir s.ops) s)
      >>= λ dir.
          download_files cache.id dir cache.files
          >> send_log (codes "All cached files downloaded")
          >> pure dir

  -- A panic is recovered, and the empty text returned.
  unfoldable pub download_body : Text → Exec Session Cache → Exec Session Text
  unfolding download_files
  download_body job resolved =
      resolved >>= λ cache. cache_get disk web login job cache.key >>= download_cache

  unfoldable pub cache_manager_download : ℕ → Variables → Text → Cache → Exec Session Text
  unfolding download_body resolve_cache
  cache_manager_download fuel inputs job cache =
      recover (λ e. pure []) (download_body job (resolve_cache fuel inputs cache))

  unfoldable pub joined : (Text → Text → Text) → Text → List Text → List Text
  joined join dir [] = []
  joined join dir (name ∷ names) = join dir name ∷ joined join dir names

  -- The line for a failure is without the text of its error.
  abbrev pub uploaded : Text → Option Err → Exec Session (Unit {0})
  uploaded key none = send_log (codes "Cache " ++ key ++ codes " uploaded")
  uploaded key (some e) = send_log (codes "Unable to cache " ++ key)

  -- `names` is the answer of ReadDir.
  unfoldable pub upload :
      (Text → Text → Text) → Text → Text → Text → Result (List Text) → Exec Session (Unit {0})
  unfolding joined
  upload join job key dir (err e) = pure tt
  upload join job key dir (ok []) = pure tt
  upload join job key dir (ok (name ∷ names)) =
      send_log (codes "Start to upload cache " ++ key)
      >> cache_put disk web login job key dir (joined join dir (name ∷ names))
      >>= uploaded key
