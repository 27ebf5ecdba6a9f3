-- ===== src/Dao/Builder/Complete.antt =====
-- Which columns a builder keeps.
use flow_agent_x.Prelude.{
  ℕ, zero, suc, ◌+◌, ◌-◌, ◌≤◌, ◌≡◌, ◌↔◌, inl, inr, ◌∙◌, sym, ap, refl, Bool-cases, Option, none,
  some, List, [], ◌∷◌, ◌++◌, map, leb, leb→le, length, take, replicate, length-append, take-append,
  arith,
}
use flow_agent_x.Prelude.Exec.{Outcome, ret, chain, chain_inv}
use flow_agent_x.Dao.Columns.{Field, EntityColumn, Unicode, parse_entity_column}
use flow_agent_x.Dao.Builder.{
  Entity, QueryBuilder, Scan, add_column, scan, slice, built, build_from, init_query_builder,
}

length-map : (cs : List EntityColumn) → length (map (λ c. some c) cs) ≡ length cs
length-map [] = refl
length-map (c ∷ cs) = ap suc (length-map cs)

length-take {ℓ} : {A : Type ℓ} (n : ℕ) (xs : List A) → n ≤ length xs → length (take n xs) ≡ n
length-take zero xs h = refl
length-take (suc n) [] h = absurd (omega arith)
length-take (suc n) (x ∷ xs) h = omega (arith, length-take n xs (omega arith))

length-replicate {ℓ} : {A : Type ℓ} (n : ℕ) (a : A) → length (replicate n a) ≡ n
length-replicate zero a = refl
length-replicate (suc n) a = ap suc (length-replicate n a)

ret_inv {ℓ} : {A : Type ℓ} (a b : A) → ◌≡◌ {A = Outcome A} (ret a) (ret b) → a ≡ b
ret_inv a b h = cc

add_column_size :
    (column : Option EntityColumn) (r : Scan)
    → let s = add_column column r in
      length s.kept + s.num_of_nil ≡ suc (length r.kept + r.num_of_nil)
add_column_size none r = omega arith
add_column_size (some c) r = omega arith

slice_inv :
    (fields : List Field) (r : Scan) (cs : List (Option EntityColumn))
    → slice fields r ≡ ret cs
    → (r.num_of_nil + 1 ≤ length fields)
      × (cs
          ≡ take
              (r.num_of_nil + 1)
              (map (λ c. some c) r.kept ++ replicate (length fields - length r.kept) none))
unfolding slice
slice_inv fields r cs h = elim (Bool-cases (leb (r.num_of_nil + 1) (length fields))) [
  | inl e ↦ (leb→le _ _ e, sym (ret_inv _ _ (rw e at h)))
  | inr e ↦ cc (rw e at h)
]

module _ (u : Unicode) where
  -- Every field gave a column or none.
  scan_size :
      (fields : List Field) (r : Scan)
      → scan u fields ≡ ret r
      → length fields ≡ length r.kept + r.num_of_nil
  unfolding scan
  scan_size [] r h =
      let e = ret_inv _ r h in
      omega (arith, ap (λ (s : Scan). length s.kept) e, ap (λ (s : Scan). s.num_of_nil) e)
  scan_size (f ∷ fs) r h =
      let (column, p, h1) =
        chain_inv (parse_entity_column u f)
          (λ column. chain (scan u fs) λ r. ret (add_column column r)) r h in
      let (r', q, h2) = chain_inv (scan u fs) (λ r. ret (add_column column r)) r h1 in
      let e = ret_inv (add_column column r') r h2 in
      omega (
        arith,
        add_column_size column r',
        scan_size fs r' q,
        ap (λ (s : Scan). length s.kept) e,
        ap (λ (s : Scan). s.num_of_nil) e,
      )

  init_query_builder_inv :
      (e : Entity) (r : Scan) (b : QueryBuilder)
      → scan u e.fields ≡ ret r
      → init_query_builder u e ≡ ret b
      → slice e.fields r ≡ ret b.columns
  unfolding init_query_builder build_from
  init_query_builder_inv e r b p h =
      let (r', q, h1) = chain_inv (scan u e.fields) (build_from u e) b h in
      let (cs, k, h2) =
        chain_inv (slice e.fields r') (λ columns. ret (built u e r' columns)) b h1 in
      let same : r' ≡ r = ret_inv r' r (sym q ∙ p) in
      ap (slice e.fields) (sym same)
      ∙ k
      ∙ ap (λ (c : QueryBuilder). ret c.columns) (ret_inv (built u e r' cs) b h2)

  -- A builder has exactly the columns of its entity, in the order of the fields, if and only if the
  -- fields with a column are one more than those without.
  pub init_query_builder_complete :
      (e : Entity) (r : Scan) (b : QueryBuilder)
      → scan u e.fields ≡ ret r
      → init_query_builder u e ≡ ret b
      → (b.columns ≡ map (λ c. some c) r.kept) ↔ (length r.kept ≡ r.num_of_nil + 1)
  init_query_builder_complete e r b p h = (there, back)
    where
      back : length r.kept ≡ r.num_of_nil + 1 → b.columns ≡ map (λ c. some c) r.kept
      back q =
          let (_, k) = slice_inv e.fields r b.columns (init_query_builder_inv e r b p h) in
          k
          ∙ ap
              (λ n.
                take n
                  (map (λ c. some c) r.kept ++ replicate (length e.fields - length r.kept) none))
              (sym (length-map r.kept ∙ q))
          ∙ take-append (map (λ c. some c) r.kept)
              (replicate (length e.fields - length r.kept) none)

      there : b.columns ≡ map (λ c. some c) r.kept → length r.kept ≡ r.num_of_nil + 1
      there q =
          let (room, k) = slice_inv e.fields r b.columns (init_query_builder_inv e r b p h) in
          let all : List (Option EntityColumn) =
            map (λ c. some c) r.kept ++ replicate (length e.fields - length r.kept) none in
          let size : length all ≡ length e.fields = omega (
            arith,
            scan_size e.fields r p,
            length-append (map (λ c. some c) r.kept)
                (replicate (length e.fields - length r.kept) none),
            length-map r.kept,
            length-replicate {A = Option EntityColumn} (length e.fields - length r.kept) none,
          ) in
          omega (
            arith,
            length-map r.kept,
            ap length q,
            ap length k,
            length-take (r.num_of_nil + 1) all (omega (arith, room, size)),
          )
