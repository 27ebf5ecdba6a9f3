-- ===== src/Api/Caches/Files.antt =====
-- Which files CachePut packs, and where CacheDownload unpacks one.
use flow_agent_x.Prelude.{
  ℕ, ◌≡◌, ◌∙◌, ap, refl, ◌⊎◌, inl, inr, true, Bool-cases, Option-cases, Option, none, some, List,
  [], ◌∷◌, ◌++◌, ◌&&◌, Text, codes, has_prefix, arith,
}
use flow_agent_x.Prelude.Exec.{
  continue, Result, err, nil_dereference, Err, ok, Result-cases, Outcome, ret, panic, Exec, pure,
  panic_if_err, recover, finally, ◌>>=◌, ◌>>◌,
}
use flow_agent_x.Api.Names.{encode_cache_name, decode_cache_name-encode_cache_name}
use flow_agent_x.Api.Requests.{
  Web, Login, Session, FileOp, created, removed, renamed, unzipped, get, send, do_request,
  request_to,
}
use flow_agent_x.Api.Caches.{
  Disk, act, zip_path, zip_cache, add_part, zip_caches, unzip_cache, cache_dest,
  cache_download_body, cache_download, download, remove_all,
}

bind_ret {ℓ κ} :
    {A : Type ℓ} {B : Type κ} (m : Exec Session A) (f : A → Exec Session B) (s : Session) (a : A)
    (r : Outcome B)
    → (m s).0 ≡ ret a
    → (f a (m s).1).0 ≡ r
    → ((m >>= f) s).0 ≡ r
bind_ret m f s a r h k = rw (h, ◌>>=◌) k

module _ (disk : Disk) (temp_dir workspace : Text) where
  -- The paths of a call, and the parts of its request.
  pub data Packed : List Text → List (Text × Text) → Type 0 where
    no_path : Packed [] []
    skipped :
        {paths : List Text} {parts : List (Text × Text)} (path : Text)
        → Packed paths parts
        → Packed (path ∷ paths) parts
    packed :
        {paths : List Text} {parts : List (Text × Text)} (path : Text)
        → has_prefix path workspace ≡ true
        → Packed paths parts
        → Packed (path ∷ paths) ((codes "files", zip_path disk temp_dir workspace path) ∷ parts)

  zip_cache-cases :
      (path : Text) (s : Session)
      → ((zip_cache disk temp_dir workspace path s).0 ≡ ret none)
        ⊎ (((zip_cache disk temp_dir workspace path s).0
              ≡ ret (some (zip_path disk temp_dir workspace path)))
            × (has_prefix path workspace ≡ true))
  unfolding zip_cache
  zip_cache-cases path s =
      elim (Bool-cases (disk.is_file_exists s.ops path && has_prefix path workspace)) [
        | inl e ↦
            elim (Option-cases (disk.zip s.ops path (zip_path disk temp_dir workspace path))) [
              | inl z ↦ inr (rw (e, z) refl, ground arith)
              | inr (x, z) ↦ inl (rw (e, z) refl)
            ]
        | inr e ↦ inl (rw e refl)
      ]

  -- The parts of the request of CachePut are, in the order of the paths, one file for each path that
  -- was neither missing nor failed to zip, each under the workspace and under the name of its path.
  pub zip_caches-Packed :
      (paths : List Text) (s : Session)
      → (parts : List (Text × Text)) × ((zip_caches disk temp_dir workspace paths s).0 ≡ ret parts)
        × Packed paths parts
  unfolding zip_caches
  zip_caches-Packed [] s = ([], refl, no_path)
  zip_caches-Packed (path ∷ paths) s =
      let (parts, e, p) = zip_caches-Packed paths (zip_cache disk temp_dir workspace path s).1 in
      elim (zip_cache-cases path s) [
        | inl z ↦ (parts, add none z e, skipped path p)
        | inr (z, h) ↦ (_, add (some (zip_path disk temp_dir workspace path)) z e, packed path h p)
      ]
    where
      add :
          (file : Option Text) {parts : List (Text × Text)}
          → (zip_cache disk temp_dir workspace path s).0 ≡ ret file
          → (zip_caches disk temp_dir workspace paths
              (zip_cache disk temp_dir workspace path s).1).0
            ≡ ret parts
          → (zip_caches disk temp_dir workspace (path ∷ paths) s).0 ≡ ret (add_part disk file parts)
      add file {parts} z e =
          bind_ret (zip_cache disk temp_dir workspace path)
            (λ f. zip_caches disk temp_dir workspace paths >>= λ ps. pure (add_part disk f ps)) s
            file _ z
            (bind_ret (zip_caches disk temp_dir workspace paths)
              (λ ps. pure (add_part disk file ps)) _ parts _ e refl)

-- A file that CachePut packs from below a workspace is unpacked below the workspace that it is
-- downloaded to, at the same relative path, if the encoding of names can be undone and the workspace
-- does not end in a separator.
pub cache_dest-encode_cache_name :
    (disk : Disk)
    → ((s : Text) → disk.decode (disk.encode s) ≡ ok s)
    → (workspace front : Text) (c : ℕ) (path : Text)
    → cache_dest disk workspace (
        encode_cache_name disk.encode disk.decode
          (front ++ c ∷ [])
          ((front ++ c ∷ []) ++ b'/' ∷ path))
      ≡ workspace ++ codes "/" ++ path
unfolding cache_dest
cache_dest-encode_cache_name disk law workspace front c path =
    rw (decode_cache_name-encode_cache_name disk.encode disk.decode law front c path) refl

-- An action whose error is a panic leaves its mark on the machine either way.
module _ (op : FileOp) (answer : List FileOp → Option Err) (s : Session) where
  act_cases :
      ((answer s.ops ≡ none)
        × ((act op answer >>= panic_if_err) s ≡ (ret tt, record s { ops = op ∷ s.ops })))
      ⊎ ((e : Err) × ((act op answer >>= panic_if_err) s
            ≡ (panic e, record s { ops = op ∷ s.ops })))
  act_cases = elim (Option-cases (answer s.ops)) [
    | inl e ↦ inl (e, rw e refl)
    | inr (x, e) ↦ inr (x, rw e refl)
  ]

then_panics {ℓ κ} :
    {A : Type ℓ} {B : Type κ} (m : Exec Session A) (n : Exec Session B) (s s' : Session) (e : Err)
    → m s ≡ (panic e, s')
    → (m >> n) s ≡ (panic e, s')
then_panics m n s s' e h = rw (h, ◌>>=◌) refl

then_returns {ℓ κ} :
    {A : Type ℓ} {B : Type κ} (m : Exec Session A) (n : Exec Session B) (s s' : Session) (a : A)
    → m s ≡ (ret a, s')
    → (m >> n) s ≡ n s'
then_returns m n s s' a h = rw (h, ◌>>=◌) refl

recovers :
    (m : Exec Session (Unit {0})) (s s' : Session)
    → ((m s ≡ (ret tt, s')) ⊎ ((e : Err) × (m s ≡ (panic e, s'))))
    → recover (λ e. pure tt) m s ≡ (ret tt, s')
recovers m s s' (inl h) = rw (h, recover) refl
recovers m s s' (inr (e, h)) = rw (h, recover) refl

module _ (disk : Disk) where
  unzip_cache-removed :
      (zipped_file dest : Text) (s : Session)
      → let s' = record s { ops = removed zipped_file ∷ unzipped zipped_file dest ∷ s.ops } in
        (unzip_cache disk zipped_file dest s ≡ (ret tt, s'))
        ⊎ ((e : Err) × (unzip_cache disk zipped_file dest s ≡ (panic e, s')))
  unfolding unzip_cache remove_all
  unzip_cache-removed zipped_file dest s =
      elim (act_cases (unzipped zipped_file dest) (λ h. disk.unzip h zipped_file dest) s) [
        | inl (_, h) ↦ inl (rw (h, finally) refl)
        | inr (e, h) ↦ inr (e, rw (h, finally) refl)
      ]

  module _ (web : Web) (login : Login) where
    abbrev asked : Text → Session → Session
    asked path s = record s { requests = request_to web login get path [] ∷ s.requests }

    was_sent :
        (path : Text) (s : Session)
        → web.new_request (request_to web login get path []).url ≡ none
        → send web login get path [] s
          ≡ (ret (web.fetch s.requests (request_to web login get path [])), asked path s)
    unfolding send do_request
    was_sent path s h = rw (h, do_request) refl

    not_sent :
        (path : Text) (s : Session) (e : Err)
        → web.new_request (request_to web login get path []).url ≡ some e
        → send web login get path [] s ≡ (panic nil_dereference, s)
    unfolding send do_request
    not_sent path s e h = rw (h, do_request) refl

    abbrev save : Text → Result Text → Exec Session (Option Err)
    save file answer = elim answer [
      | err e ↦ pure (some e)
      | ok _ ↦ λ s. (ret (disk.copy s.ops file), s)
    ]

    -- What download does behind its request.
    abbrev saved : Text → Outcome (Result Text) × Session → Outcome (Unit {0}) × Session
    saved file p = let (r, s) = continue p.0 (save file) p.1 in continue r panic_if_err s

    download_cases :
        (path file : Text) (s : Session)
        → ((download disk web login path file >>= panic_if_err) s ≡ (ret tt, asked path s))
          ⊎ ((e : Err) × (s1 : Session) × (s1.ops ≡ s.ops)
              × ((download disk web login path file >>= panic_if_err) s ≡ (panic e, s1)))
    unfolding download
    download_cases path file s =
        elim (Option-cases (web.new_request (request_to web login get path []).url)) [
          | inr (x, n) ↦ inr (nil_dereference, s, refl, ap (saved file) (not_sent path s x n))
          | inl n ↦
              let go = ap (saved file) (was_sent path s n) in
              elim (Result-cases (web.fetch s.requests (request_to web login get path []))) [
                | inr (x, h) ↦ inr (x, asked path s, refl, go ∙ rw h refl)
                | inl (body, h) ↦ elim (Option-cases (disk.copy s.ops file)) [
                  | inl k ↦ inl (go ∙ rw (h, k) refl)
                  | inr (x, k) ↦ inr (x, asked path s, refl, go ∙ rw (h, k) refl)
                ]
              ]
        ]

    module _ (id workspace file : Text) (s : Session) where
      abbrev tmp_file : Text
      tmp_file = workspace ++ codes "/" ++ file ++ codes ".tmp"

      abbrev zip_file : Text
      zip_file = workspace ++ codes "/" ++ file

      abbrev path_of : Text
      path_of = codes "cache/" ++ id ++ codes "?file=" ++ file

      abbrev Ended : Session → Type 0
      Ended s' =
          (cache_download_body disk web login id workspace file s ≡ (ret tt, s'))
          ⊎ ((e : Err) × (cache_download_body disk web login id workspace file s ≡ (panic e, s')))

      -- The file operations of a download, latest first, by how far it comes.
      pub data Left : List FileOp → Type 0 where
        only_created : Left (created tmp_file ∷ s.ops)
        not_renamed : Left (renamed tmp_file zip_file ∷ created tmp_file ∷ s.ops)
        cleaned : Left (
            removed zip_file
            ∷ unzipped zip_file (cache_dest disk workspace file)
            ∷ renamed tmp_file zip_file
            ∷ created tmp_file
            ∷ s.ops)

      abbrev create_file : Exec Session (Unit {0})
      create_file = act (created tmp_file) (λ h. disk.create h tmp_file) >>= panic_if_err

      abbrev fill_file : Exec Session (Unit {0})
      fill_file = download disk web login path_of tmp_file >>= panic_if_err

      abbrev rename_file : Exec Session (Unit {0})
      rename_file =
          act (renamed tmp_file zip_file) (λ h. disk.rename h tmp_file zip_file) >>= panic_if_err

      abbrev unpack_file : Exec Session (Unit {0})
      unpack_file = unzip_cache disk zip_file (cache_dest disk workspace file)

      fails_at :
          (e : Err) (s' : Session)
          → ((create_file >> fill_file) >> rename_file) s ≡ (panic e, s')
          → cache_download_body disk web login id workspace file s ≡ (panic e, s')
      unfolding cache_download_body
      fails_at e s' h = then_panics ((create_file >> fill_file) >> rename_file) unpack_file s s' e h

      unpacks :
          (s3 : Session)
          → ((create_file >> fill_file) >> rename_file) s ≡ (ret tt, s3)
          → Left (removed zip_file ∷ unzipped zip_file (cache_dest disk workspace file) ∷ s3.ops)
          → (s' : Session) × Ended s' × Left s'.ops
      unfolding cache_download_body
      unpacks s3 h l =
          let go = then_returns ((create_file >> fill_file) >> rename_file) unpack_file s s3 tt h in
          elim (unzip_cache-removed zip_file (cache_dest disk workspace file) s3) [
            | inl u ↦ (_, inl (go ∙ u), l)
            | inr (e, u) ↦ (_, inr (e, go ∙ u), l)
          ]

      body_cases : (s' : Session) × Ended s' × Left s'.ops
      body_cases = elim (act_cases (created tmp_file) (λ h. disk.create h tmp_file) s) [
        | inr (e, h) ↦ (
          _,
          inr (
            e,
            fails_at e _ (
                then_panics (create_file >> fill_file) rename_file s _ e
                  (then_panics create_file fill_file s _ e h)),
          ),
          only_created,
        )
        | inl (_, h) ↦
            let first = then_returns create_file fill_file s _ tt h in
            elim (download_cases path_of tmp_file (record s { ops = created tmp_file ∷ s.ops })) [
              | inr (e, s1, o, k) ↦ (
                s1,
                inr (
                  e,
                  fails_at e _
                      (then_panics (create_file >> fill_file) rename_file s _ e (first ∙ k)),
                ),
                rw o only_created,
              )
              | inl k ↦
                  let second =
                    then_returns (create_file >> fill_file) rename_file s _ tt (first ∙ k) in
                  elim (act_cases (renamed tmp_file zip_file) (λ h. disk.rename h tmp_file zip_file)
                    (asked path_of (record s { ops = created tmp_file ∷ s.ops }))) [
                      | inr (e, l) ↦ (_, inr (e, fails_at e _ (second ∙ l)), not_renamed)
                      | inl (_, l) ↦ unpacks _ (second ∙ l) cleaned
                    ]
            ]
      ]

      -- CacheDownload returns, whatever the machine and the server answer, and leaves one of three
      -- traces on the machine: a file created; then a rename tried and nothing after it; or, after
      -- the rename, the file unpacked, well or badly, and removed.
      pub cache_download-Left :
          ((cache_download disk web login id workspace file s).0 ≡ ret tt)
          × Left (cache_download disk web login id workspace file s).1.ops
      unfolding cache_download
      cache_download-Left =
          let (s', ended, left) = body_cases in
          let e = recovers (cache_download_body disk web login id workspace file) s s' ended in
          rw e (refl, left)
