-- ===== src/Tenancy/Driver.antt =====
-- What the plugin relies on of the database and its driver, as an interface, and the queries of
-- plugin.ts run over it: one collection that the tenants share, and the documents that a query takes.
use erp_global.Common.{
  Bool, ◌&&◌, not, Option, none, some, List, [], ◌∷◌, ◌++◌, ◌≡◌, ◌≢◌, ◌⊎◌, any, all, filter, map,
  In, if◌then◌else◌,
}
use erp_global.Common.Text.{Text, ◌===◌, codes}
use erp_global.Tenancy.Plugin.{
  Fields, Unknown, text, get, tenant_field, set_operators, guarded_operators, Update, pipeline,
  document, Query, BulkOp, insert_one, change,
}
use erp_global.Tenancy.Stages.{is_text}

abbrev pub rename : Text
rename = codes "$rename"

-- `holds`: a document satisfies one entry of a filter. `picks`: an operation takes a document among
-- those that match (all, or one). `write`: an operator's entry on a document; `run_stages`: an update
-- by stages; `replace`: a replacement of a document; `from_filter`: the document that an upsert starts from.
-- The laws say what becomes of the tenant field: an entry changes its own field only, but for a rename
-- into the tenant field; `$set` and `$setOnInsert` write the value or leave the field; the operators on
-- arrays and bits that the plugin does not name leave it; an upsert starts from the filter's texts.
pub record Driver : Type 0 where
  pub holds : Text → Unknown → Fields → Bool
  pub picks : Text → Fields → List Fields → Fields → Bool
  pub write : Text → Text → Unknown → Fields → Fields
  pub run_stages : Fields → Fields
  pub replace : Fields → Fields → Fields
  pub from_filter : Fields → Fields
  pub holds_tenant :
      (t : Text) (d : Fields) → holds tenant_field (text t) d ≡ is_text (get tenant_field d) t
  pub write_elsewhere :
      (op k : Text) (v : Unknown) (d : Fields)
      → k ≢ tenant_field
      → ¬ ((op ≡ rename) × (v ≡ text tenant_field))
      → get tenant_field (write op k v d) ≡ get tenant_field d
  pub write_set :
      (op : Text) (v : Unknown) (d : Fields)
      → In op set_operators
      → (get tenant_field (write op tenant_field v d) ≡ some v)
        ⊎ (get tenant_field (write op tenant_field v d) ≡ get tenant_field d)
  pub write_other :
      (op : Text) (v : Unknown) (d : Fields)
      → ¬ (In op set_operators)
      → ¬ (In op guarded_operators)
      → get tenant_field (write op tenant_field v d) ≡ get tenant_field d
  pub replace_tenant :
      (r d : Fields)
      → (get tenant_field (replace r d) ≡ get tenant_field r)
        ⊎ (get tenant_field (replace r d) ≡ get tenant_field d)
  pub from_filter_text :
      (f : Fields) (t : Text)
      → get tenant_field f ≡ some (text t)
      → get tenant_field (from_filter f) ≡ some (text t)

abbrev pub Collection : Type 0
Collection = List Fields

abbrev pub delete_ops : List Text
delete_ops = codes "deleteMany" ∷ codes "deleteOne" ∷ codes "findOneAndDelete" ∷ []

abbrev pub update_ops : List Text
update_ops = codes "findOneAndUpdate" ∷ codes "updateMany" ∷ codes "updateOne" ∷ []

abbrev pub replace_ops : List Text
replace_ops = codes "findOneAndReplace" ∷ codes "replaceOne" ∷ []

-- The replacement of a query stands where its update would.
abbrev pub replacement_of : Option Update → Fields
replacement_of (some (document top ops blank)) = top
replacement_of (some pipeline) = []
replacement_of none = []

abbrev pub filter_or_all : Option Fields → Fields
filter_or_all none = []
filter_or_all (some f) = f

module _ (D : Driver) where
  -- A document matches a filter when it satisfies each of its entries.
  unfoldable pub matches : Fields → Fields → Bool
  matches f d = all (λ e. D.holds e.0 e.1 d) f

  -- An update as the driver does it, entry by entry; fields outside of operators are set.
  unfoldable pub write_all : Text → Fields → Fields → Fields
  write_all op [] d = d
  write_all op ((k, v) ∷ fs) d = write_all op fs (D.write op k v d)

  unfoldable pub write_ops : List (Text × Fields) → Fields → Fields
  unfolding write_all
  write_ops [] d = d
  write_ops ((op, fs) ∷ ops) d = write_ops ops (write_all op fs d)

  unfoldable pub apply : Option Update → Fields → Fields
  unfolding write_ops
  apply none d = d
  apply (some pipeline) d = D.run_stages d
  apply (some (document top ops blank)) d = write_ops ops (write_all (codes "$set") top d)

  unfoldable pub taken : Text → Fields → Collection → Fields → Bool
  unfolding matches
  taken op f s d = matches f d && D.picks op f s d

  unfoldable pub remove : Text → Fields → Collection → Collection
  unfolding taken
  remove op f s = filter (λ d. not (taken op f s d)) s

  -- The taken documents become what `g` makes of them; an upsert that finds none adds one.
  unfoldable pub alter : (Fields → Fields) → Bool → Text → Fields → Collection → Collection
  unfolding taken matches
  alter g upsert op f s =
      map (λ d. if taken op f s d then g d else d) s
      ++ (if upsert && not (any (matches f) s) then g (D.from_filter f) ∷ [] else [])

  -- What a query that its hook lets pass does to the collection: reads leave it.
  unfoldable pub execute : Query → Collection → Collection
  unfolding remove alter apply
  execute q s =
      if any (λ o. o === q.op) delete_ops
      then remove q.op q.filter s
      else if any (λ o. o === q.op) update_ops
      then alter (apply q.update) q.upsert q.op q.filter s
      else if any (λ o. o === q.op) replace_ops
      then alter (D.replace (replacement_of q.update)) q.upsert q.op q.filter s
      else s

  -- One operation of a bulk write: a replacement, an update, or a removal.
  unfoldable pub execute_bulk : BulkOp → Collection → Collection
  unfolding remove alter apply
  execute_bulk (insert_one d) s = s ++ (d ∷ [])
  execute_bulk (change kind f update (some r) upsert) s =
      alter (D.replace r) upsert kind (filter_or_all f) s
  execute_bulk (change kind f (some u) none upsert) s =
      alter (apply (some u)) upsert kind (filter_or_all f) s
  execute_bulk (change kind f none none upsert) s = remove kind (filter_or_all f) s

  unfoldable pub execute_bulks : List BulkOp → Collection → Collection
  unfolding execute_bulk
  execute_bulks [] s = s
  execute_bulks (o ∷ os) s = execute_bulks os (execute_bulk o s)
