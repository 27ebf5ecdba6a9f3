-- ===== src/Api/Caches.antt =====
-- api/client.go: the upload of a log, and the caches of a job. The file system, package zip and the
-- encoding of package base64 are in the environment.
pub mod Put
pub mod Files
use flow_agent_x.Prelude.{
  Bool, true, false, Option, none, some, List, [], ◌∷◌, ◌++◌, ◌&&◌, if◌then◌else◌, Text, codes,
  has_prefix,
}
use flow_agent_x.Prelude.Exec.{
  Err, Result, ok, err, Outcome, ret, Exec, pure, must, panic_if_err, modify, recover, finally,
  ◌>>=◌, ◌>>◌,
}
use flow_agent_x.Util.Platform.{os_name}
use flow_agent_x.Api.Names.{encode_cache_name, decode_cache_name}
use flow_agent_x.Api.Requests.{
  Part, get, post, Web, Login, Session, JobCache, FileOp, created, removed, zipped, renamed,
  unzipped, Response, parse_response, send,
}

-- The machine: an answer may depend on what was done before, latest first.
pub record Disk : Type 0 where
  pub temp_dir : List FileOp → Result Text
  pub is_file_exists : List FileOp → Text → Bool
  pub zip : List FileOp → Text → Text → Option Err
  pub read_file : List FileOp → Text → Result Text
  pub base_name : Text → Text  -- filepath.Base
  pub create : List FileOp → Text → Option Err
  pub copy : List FileOp → Text → Option Err  -- of the body of an answer into a file
  pub rename : List FileOp → Text → Text → Option Err
  pub unzip : List FileOp → Text → Text → Option Err
  pub goos : Text
  pub encode : Text → Text
  pub decode : Text → Result Text

-- An action on the machine, which is recorded, and its answer.
abbrev pub act {ℓ} : {A : Type ℓ} → FileOp → (List FileOp → A) → Exec Session A
act op answer s = (ret (answer s.ops), record s { ops = op ∷ s.ops })

module _ (disk : Disk) where
  -- buildMultipartContent, which reads each file when its turn comes
  unfoldable pub build_multipart_content : List (Text × Text) → Exec Session (List Part)
  build_multipart_content [] = pure []
  build_multipart_content ((key, file) ∷ parts) =
      let rest = build_multipart_content parts in
      (λ (s : Session). must (disk.read_file s.ops file) s) >>= λ content. rest >>= λ contents.
      pure (record { key = key; file = disk.base_name file; content = content } ∷ contents)

  unfoldable pub zip_path : Text → Text → Text → Text
  unfolding encode_cache_name
  zip_path temp_dir workspace path =
      temp_dir ++ codes "/" ++ encode_cache_name disk.encode disk.decode workspace path

  -- One path of CachePut: it is skipped if it is missing, not under the workspace, or does not zip.
  unfoldable pub zip_cache : Text → Text → Text → Exec Session (Option Text)
  unfolding zip_path
  zip_cache temp_dir workspace path s =
      let target = zip_path temp_dir workspace path in
      if disk.is_file_exists s.ops path && has_prefix path workspace
      then elim (disk.zip s.ops path target) [
        | some e ↦ (ret none, record s { ops = zipped path target ∷ s.ops })
        | none ↦ (ret (some target), record s { ops = zipped path target ∷ s.ops })
      ]
      else (ret none, s)

  abbrev pub add_part : Option Text → List (Text × Text) → List (Text × Text)
  add_part none parts = parts
  add_part (some file) parts = (codes "files", file) ∷ parts

  unfoldable pub zip_caches : Text → Text → List Text → Exec Session (List (Text × Text))
  unfolding zip_cache
  zip_caches temp_dir workspace [] = pure []
  zip_caches temp_dir workspace (path ∷ paths) =
      let rest = zip_caches temp_dir workspace paths in
      zip_cache temp_dir workspace path >>= λ file. rest >>= λ parts. pure (add_part file parts)

  unfoldable pub remove_all : Text → Exec Session (Unit {0})
  remove_all path s = (ret tt, record s { ops = removed path ∷ s.ops })

  unfoldable pub unzip_cache : Text → Text → Exec Session (Unit {0})
  unfolding remove_all
  unzip_cache zipped_file dest =
      finally (remove_all zipped_file)
        (act (unzipped zipped_file dest) (λ h. disk.unzip h zipped_file dest) >>= panic_if_err)

  unfoldable pub cache_dest : Text → Text → Text
  unfolding decode_cache_name
  cache_dest workspace file =
      workspace ++ codes "/" ++ decode_cache_name disk.encode disk.decode file

  module _ (web : Web) (login : Login) where
    unfoldable pub check_answer : Text → Exec Session (Option Err)
    check_answer raw = must (parse_response (web.response raw)) >> pure none

    -- The end of CachePut and of UploadLog: one request, and an answer that is read for its error.
    unfoldable pub post_parts : Text → List Part → Exec Session (Option Err)
    unfolding send check_answer
    post_parts path body = send web login post path body >>= λ answer. must answer >>= check_answer

    unfoldable pub upload_log_body : Text → Exec Session (Option Err)
    unfolding build_multipart_content post_parts
    upload_log_body path =
        build_multipart_content ((codes "file", path) ∷ []) >>= post_parts (codes "logs/upload")

    unfoldable pub upload_log : Text → Exec Session (Option Err)
    unfolding upload_log_body
    upload_log path = recover (λ e. pure (some e)) (upload_log_body path)

    unfoldable pub cache_path : Text → Text → Text
    unfolding os_name
    cache_path job key = codes "cache/" ++ job ++ codes "/" ++ key ++ codes "/" ++ os_name disk.goos

    unfoldable pub put_files : Text → Text → Text → List Text → Text → Exec Session (Option Err)
    unfolding zip_caches build_multipart_content cache_path post_parts
    put_files job key workspace paths temp_dir = zip_caches temp_dir workspace paths >>= λ parts.
        build_multipart_content parts >>= λ body. post_parts (cache_path job key) body

    -- CachePut behind the directory that it has made, which is removed at the end.
    unfoldable pub put_from : Text → Text → Text → List Text → Text → Exec Session (Option Err)
    unfolding put_files remove_all
    put_from job key workspace paths temp_dir =
        finally (remove_all temp_dir) (put_files job key workspace paths temp_dir)

    unfoldable pub cache_put_body : Text → Text → Text → List Text → Exec Session (Option Err)
    unfolding put_from
    cache_put_body job key workspace paths =
        (λ (s : Session). must (disk.temp_dir s.ops) s) >>= put_from job key workspace paths

    unfoldable pub cache_put : Text → Text → Text → List Text → Exec Session (Option Err)
    unfolding cache_put_body
    cache_put job key workspace paths =
        recover (λ e. pure (some e)) (cache_put_body job key workspace paths)

    -- No panic is recovered here: the caller has to.
    unfoldable pub cache_get : Text → Text → Exec Session (Option JobCache)
    unfolding send
    cache_get job key =
        send web login get (codes "cache/" ++ job ++ codes "/" ++ key) [] >>= λ answer.
        must answer >>= λ raw. must (parse_response (web.job_cache raw))

    -- The answer's body goes to the file as it comes.
    unfoldable pub download : Text → Text → Exec Session (Option Err)
    unfolding send
    download path file = send web login get path [] >>= λ answer. elim answer [
      | err e ↦ pure (some e)
      | ok _ ↦ λ s. (ret (disk.copy s.ops file), s)
    ]

    unfoldable pub cache_download_body : Text → Text → Text → Exec Session (Unit {0})
    unfolding download unzip_cache cache_dest
    cache_download_body cache_id workspace file =
        let tmp = workspace ++ codes "/" ++ file ++ codes ".tmp" in
        let zipped_file = workspace ++ codes "/" ++ file in
        (act (created tmp) (λ h. disk.create h tmp) >>= panic_if_err)
        >> (download (codes "cache/" ++ cache_id ++ codes "?file=" ++ file) tmp >>= panic_if_err)
        >> (act (renamed tmp zipped_file) (λ h. disk.rename h tmp zipped_file) >>= panic_if_err)
        >> unzip_cache zipped_file (cache_dest workspace file)

    unfoldable pub cache_download : Text → Text → Text → Exec Session (Unit {0})
    unfolding cache_download_body
    cache_download cache_id workspace file =
        recover (λ e. pure tt) (cache_download_body cache_id workspace file)
