-- ===== src/Api/Caches/Put.antt =====
-- What CachePut leaves on the machine and sends, and what CacheDownload leaves.
use flow_agent_x.Prelude.{◌≡◌, ◌≢◌, ap, refl, Option, none, some, List, [], ◌∷◌, Text, arith}
use flow_agent_x.Prelude.Exec.{
  Err, Result, ok, err, Outcome, ret, panic, hang, Exec, pure, must, recover, on_panic, after,
  continue, ◌>>=◌,
}
use flow_agent_x.Api.Requests.{
  Part, Web, Login, Session, FileOp, removed, parse_response, Method, post, send, do_request,
}
use flow_agent_x.Api.Caches.{
  Disk, zip_cache, zip_caches, build_multipart_content, remove_all, check_answer, post_parts,
  put_files, put_from, cache_put_body, cache_put,
}

-- `m` ends: it returns or panics.
abbrev Ends {ℓ} : {A : Type ℓ} → Exec Session A → Type ℓ
Ends m = (s : Session) → (m s).0 ≢ hang

never_hangs {ℓ κ} :
    {A : Type ℓ} {B : Type κ} (r : Outcome A) (s : Session) (f : A → Exec Session B)
    → r ≢ hang
    → ((a : A) → Ends (f a))
    → (continue r f s).0 ≢ hang
never_hangs (ret a) s f h k = k a s
never_hangs (panic e) s f h k = λ p. cc
never_hangs hang s f h k = absurd (h refl)

bind-Ends {ℓ κ} :
    {A : Type ℓ} {B : Type κ} (m : Exec Session A) (f : A → Exec Session B)
    → Ends m
    → ((a : A) → Ends (f a))
    → Ends (m >>= f)
bind-Ends m f h k s = never_hangs (m s).0 (m s).1 f (h s) k

pure-Ends {ℓ} : {A : Type ℓ} (a : A) → Ends (pure a)
pure-Ends a s p = cc

must-Ends {ℓ} : {A : Type ℓ} (r : Result A) → Ends (must r)
must-Ends (ok a) s p = cc
must-Ends (err e) s p = cc

module _ (disk : Disk) where
  zip_cache-Ends : (t workspace path : Text) → Ends (zip_cache disk t workspace path)
  unfolding zip_cache
  zip_cache-Ends t workspace path s = ground arith

  zip_caches-Ends :
      (t workspace : Text) (paths : List Text) → Ends (zip_caches disk t workspace paths)
  unfolding zip_caches
  zip_caches-Ends t workspace [] = λ s p. cc
  zip_caches-Ends t workspace (path ∷ paths) =
      bind-Ends _ _ (zip_cache-Ends t workspace path)
        λ file. bind-Ends _ _ (zip_caches-Ends t workspace paths) λ parts s p. cc

  build_multipart_content-Ends :
      (parts : List (Text × Text)) → Ends (build_multipart_content disk parts)
  unfolding build_multipart_content
  build_multipart_content-Ends [] = λ s p. cc
  build_multipart_content-Ends ((key, file) ∷ parts) =
      bind-Ends _ _ (λ s. must-Ends (disk.read_file s.ops file) s)
        λ content. bind-Ends _ _ (build_multipart_content-Ends parts) λ contents s p. cc

  module _ (web : Web) (login : Login) where
    send-Ends : (m : Method) (path : Text) (body : List Part) → Ends (send web login m path body)
    unfolding send do_request
    send-Ends m path body s = ground arith

    check_answer-Ends : (raw : Text) → Ends (check_answer disk web login raw)
    unfolding check_answer
    check_answer-Ends raw =
        bind-Ends (must (parse_response (web.response raw))) (λ _. pure none)
          (must-Ends (parse_response (web.response raw))) (λ _. pure-Ends none)

    post_parts-Ends : (path : Text) (body : List Part) → Ends (post_parts disk web login path body)
    unfolding post_parts
    post_parts-Ends path body =
        bind-Ends (send web login post path body)
          (λ answer. must answer >>= check_answer disk web login) (send-Ends post path body)
          λ answer.
            bind-Ends (must answer) (check_answer disk web login) (must-Ends answer)
              (check_answer-Ends)

    put_files-Ends :
        (job key workspace : Text) (paths : List Text) (t : Text)
        → Ends (put_files disk web login job key workspace paths t)
    unfolding put_files
    put_files-Ends job key workspace paths t =
        bind-Ends _ _ (zip_caches-Ends t workspace paths)
          λ parts. bind-Ends _ _ (build_multipart_content-Ends parts) λ body. post_parts-Ends _ body

    -- Behind a body that ends, a deferred removal is the last thing that is done.
    finally_removes {ℓ} :
        {A : Type ℓ} (t : Text) (r : Outcome A) (s : Session)
        → r ≢ hang
        → ((after (remove_all disk t) r s).1 ≡ record s { ops = removed t ∷ s.ops })
          × ((after (remove_all disk t) r s).0 ≡ r)
    unfolding remove_all
    finally_removes t (ret a) s n = (refl, refl)
    finally_removes t (panic e) s n = (refl, refl)
    finally_removes t hang s n = absurd (n refl)

    put_from-removed :
        (job key workspace : Text) (paths : List Text) (t : Text) (s : Session)
        → ((put_from disk web login job key workspace paths t s).0 ≢ hang)
          × ((ops : List FileOp) × ((put_from disk web login job key workspace paths t s).1.ops
                ≡ removed t ∷ ops))
    unfolding put_from
    put_from-removed job key workspace paths t s =
        let body = put_files disk web login job key workspace paths t s in
        let n = put_files-Ends job key workspace paths t s in
        let (e, f) = finally_removes t body.0 body.1 n in
        (rw f n, (body.1.ops, ap (λ (x : Session). x.ops) e))

    caught :
        (m : Exec Session (Option Err)) (s : Session)
        → (m s).0 ≢ hang
        → (r : Option Err) × (recover (λ e. pure (some e)) m s ≡ (ret r, (m s).1))
    caught m s n = go (m s).0 (m s).1 n
      where
        go :
            (o : Outcome (Option Err)) (s1 : Session)
            → o ≢ hang
            → (r : Option Err) × (on_panic (λ e. pure (some e)) o s1 ≡ (ret r, s1))
        go (ret a) s1 k = (a, refl)
        go (panic e) s1 k = (some e, refl)
        go hang s1 k = absurd (k refl)

    begins :
        (job key workspace : Text) (paths : List Text) (s : Session) (t : Text)
        → disk.temp_dir s.ops ≡ ok t
        → cache_put_body disk web login job key workspace paths s
          ≡ put_from disk web login job key workspace paths t s
    unfolding cache_put_body
    begins job key workspace paths s t h = rw (h, ◌>>=◌) refl

    -- CachePut returns, whatever the machine and the server answer, and once it has its temporary
    -- directory `t`, the last thing it does on the machine is to remove `t`: after a success, after
    -- an error and after a panic that it recovers.
    pub cache_put-removed :
        (job key workspace : Text) (paths : List Text) (s : Session) (t : Text)
        → disk.temp_dir s.ops ≡ ok t
        → ((r : Option Err) × ((cache_put disk web login job key workspace paths s).0 ≡ ret r))
          × ((ops : List FileOp) × ((cache_put disk web login job key workspace paths s).1.ops
                ≡ removed t ∷ ops))
    unfolding cache_put
    cache_put-removed job key workspace paths s t h =
        let start = begins job key workspace paths s t h in
        let (n, (ops, e)) = put_from-removed job key workspace paths t s in
        let (r, q) =
          caught (cache_put_body disk web login job key workspace paths) s (rw start n) in
        ((r, ap (λ (x : Outcome (Option Err) × Session). x.0) q), (ops, rw (q, start) e))
