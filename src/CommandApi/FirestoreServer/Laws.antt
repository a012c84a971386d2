-- ===== src/CommandApi/FirestoreServer/Laws.antt =====
-- The fields of the documents behind a document that was created.
use text.Mathlib.Text.{◌==◌}
use vocastock.Prelude.{
  ◌≡◌, ◌≢◌, String, true, false, ◌&&◌, Option, some, Result, ok, Bool-cases, inl, inr, eq_iff,
  arith, ◌∙◌,
}
use vocastock.Json.{Fields, ◌>>=◌}
use vocastock.Firestore.Document.{FirestoreSource, document_path, fetch_value}
use vocastock.Firestore.Document.Laws.{document_path_injective, document_path_collections}
use vocastock.Firestore.Http.{FirestoreHttpError}
use vocastock.CommandApi.Store.Laws.{set_at}
use vocastock.CommandApi.FirestoreServer.{
  Server, document_of, fields_at, put, StoresDocuments, creation_of, IsName, IsCollection, ArePlain,
  Agree,
}

both_same : (a b s t : String) → (a == b && s == t) ≡ true → (a ≡ b) × (s ≡ t)
both_same a b s t h =
    (ground (arith, h, eq_iff a b, eq_iff s t), ground (arith, h, eq_iff a b, eq_iff s t))

both_differ : (a b s t : String) → (a == b && s == t) ≡ false → b ≡ a → t ≡ s → ⊥
both_differ a b s t h e f = ground (arith, h, e, f, eq_iff a b, eq_iff s t)

-- A reading of fields that only looks at the values under names.
abbrev pub Respects : {D : Type 0} → (Fields → Option D) → Type 0
Respects read = (got sent : Fields) → Agree got sent → read got ≡ read sent

module _ {S B : Type 0} (server : Server S B) (source : FirestoreSource)
    (stores : StoresDocuments server source) (collection actor identifier : String)
    (fields : Fields) (s : S) where
  abbrev pub creation : Result B FirestoreHttpError × S
  creation = creation_of server source collection actor identifier fields s

  put-created :
      (reply : B) (mask : String)
      → creation.0 ≡ ok reply
      → (put server source collection mask actor identifier (document_of fields) s).1 ≡ creation.1
  unfolding put
  put-created reply mask h = rw (h, put)

  -- The document is created under plain names, between states in which the server can be reached.
  abbrev pub IsCreated : B → Type 0
  IsCreated reply =
      (creation.0 ≡ ok reply)
      × IsName actor
      × IsName identifier
      × stores.is_reachable s
      × stores.is_reachable creation.1

  -- The document reads as what was sent, and the others of its collection as before.
  pub read-put :
      {D : Type 0} (read : Fields → Option D) (document : D) (reply : B) (mask : String)
      → Respects read
      → read fields ≡ some document
      → ArePlain fields
      → IsCollection collection
      → IsCreated reply
      → (b t : String) → IsName b
      → IsName t
      → (fields_at server source
            (put server source collection mask actor identifier (document_of fields) s).1
            collection
            b
            t
          >>= read)
        ≡ set_at actor identifier document
            (λ c u. fields_at server source s collection c u >>= read)
            b
            t
  unfolding fetch_value
  read-put read document reply mask respects reads plain simple (h, name, other_name, before, after)
        b t is_name is_other =
      elim (Bool-cases (actor == b && identifier == t)) [
        | inl e ↦
            let (actors, identifiers) = both_same actor b identifier t e in
            let (got, found, agree) =
              stores.created collection actor identifier reply fields s simple name other_name plain
                h after in
            let same : read got ≡ some document = respects got fields agree ∙ reads in
            rw (put-created reply mask h, e) (rw (← actors, ← identifiers, found) same)
        | inr e ↦
            let other : document_path source.project_id b collection t
                ≢ document_path source.project_id actor collection identifier =
              λ same.
                let (actors, identifiers) =
                  document_path_injective source.project_id collection b actor t identifier same in
                both_differ actor b identifier t e actors identifiers in
            rw (
              put-created reply mask h,
              e,
              stores.untouched collection actor identifier collection b t reply fields s simple name
                  other_name simple is_name is_other h other before after,
            )
      ]

  pub fields_at-put_elsewhere :
      (reply : B) (mask another b t : String)
      → IsCollection collection
      → IsCollection another
      → IsCreated reply
      → IsName b
      → IsName t
      → another ≢ collection
      → fields_at server source
          (put server source collection mask actor identifier (document_of fields) s).1
          another
          b
          t
        ≡ fields_at server source s another b t
  unfolding fetch_value
  fields_at-put_elsewhere reply mask another b t simple others (h, name, other_name, before, after)
        is_name is_other differ =
      rw (
        put-created reply mask h,
        stores.untouched collection actor identifier another b t reply fields s simple name
            other_name others is_name is_other h
            (document_path_collections source.project_id b actor another collection t identifier
              others.1 simple.1 differ)
            before after,
      )
